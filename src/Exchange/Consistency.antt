-- ===== src/Exchange/Consistency.antt =====
-- What every turn of the exchange keeps between the engine's books and the shadow book.
pub mod Requests
pub mod Feed
use nano_exchange.Base.{ℕ, ◌+◌, ◌^◌, ◌<◌, ◌≡◌, Option, some, List, ◌∷◌, All, length, get_elem?}
use nano_exchange.Types.{MeClientRequest, MeMarketUpdate}
use nano_exchange.MapBook.{MeOrderBook}
use nano_exchange.Engine.{MatchingEngine}
use nano_exchange.Engine.Progress.{EngineOk, FreshAt}
use nano_exchange.Market.Shadow.{Orders}
use nano_exchange.Market.Snapshot.{SnapshotServer, IsCurrent}
use nano_exchange.Market.Replies.{Prompt}
use nano_exchange.Market.Mirror.Additions.{MirrorsBook}
use nano_exchange.Market.Mirror.Agreement.{IsTold}
use nano_exchange.Exchange.{
  Exchange, Turn, gateway_runs, engine_runs, publisher_runs, streamer_drains, streamer_serves,
  main_calls_next,
}
use nano_exchange.Exchange.Pending.{pending, follow_ticker, Fed}

-- The maps of the shadow book, by ticker.
abbrev pub shadows : Exchange → List Orders
shadows x = x.streamer.streamer.shadow_book.tickers

-- The engine's books are sound, and each is what the shadow book's map of its ticker mirrors once
-- the updates on their way have come; the snapshot buffer is current or to be baked anew.
pub record Agree (n : ℕ) (e : MatchingEngine) (s : SnapshotServer) (us : List MeMarketUpdate)
    : Type 0 where
  pub engine_ok : EngineOk n e
  pub as_many : length s.streamer.shadow_book.tickers ≡ n
  pub fed : All (Fed n) us
  pub mirrors :
      (t : ℕ) (b : MeOrderBook) (m : Orders)
      → get_elem? e.books t ≡ some b
      → get_elem? s.streamer.shadow_book.tickers t ≡ some m
      → MirrorsBook b (follow_ticker t us m)
  pub current : IsCurrent s

abbrev pub Consistent : ℕ → Exchange → Type 0
Consistent n x = Agree n x.engine x.streamer (pending x)

-- What the engine's next request may be: of a ticker that there is, with an address not in use when
-- its order is inserted, an exchange id to spare, and told in full to the public.
pub record IsOrderly (n a : ℕ) (r : MeClientRequest) (x : Exchange) : Type 0 where
  pub listed : r.ticker_id < n
  pub fresh :
      (b : MeOrderBook)
      → get_elem? x.engine.books r.ticker_id ≡ some b
      → FreshAt r.action a r x.engine.next_match_id b
  pub numbered :
      (b : MeOrderBook)
      → get_elem? x.engine.books r.ticker_id ≡ some b
      → b.next_market_order_id + 1 < 2 ^ 64
  pub told : (b : MeOrderBook) → get_elem? x.engine.books r.ticker_id ≡ some b → IsTold r.action r b

abbrev pub Admissible : ℕ → Turn → Exchange → Type 0
Admissible n (gateway_runs now accepts retry cs) x = Unit {0}
Admissible n (engine_runs a) x =
    (r : MeClientRequest) (rs : List MeClientRequest) → x.request_q ≡ r ∷ rs → IsOrderly n a r x
Admissible n (publisher_runs ns) x = Unit {0}
Admissible n streamer_drains x = Unit {0}
Admissible n (streamer_serves cs) x = Prompt cs
Admissible n main_calls_next x = Unit {0}
