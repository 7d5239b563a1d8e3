-- ===== src/Exchange/Schedules.antt =====
-- The exchange of src/main.cpp under every order of turns.
use nano_exchange.Base.{
  ℕ, zero, suc, ◌≡◌, refl, ap, ◌∙◌, subst, Bool, true, false, inl, Option, some, List, [], ◌∷◌,
  get_elem?, if◌then◌else◌, map, ◌++◌, one_result,
}
use nano_exchange.MapBook.{MeOrderBook, new_book}
use nano_exchange.Engine.Progress.{new_books-IsSound, length-new_books}
use nano_exchange.Market.Recovery.{length-empty_books}
use nano_exchange.Market.Publisher.{empty_books}
use nano_exchange.Market.Shadow.{Orders, find}
use nano_exchange.Market.Mirror.{shown}
use nano_exchange.Market.Mirror.Additions.{MirrorsBook}
use nano_exchange.Exchange.{
  Library, Exchange, new_exchange, Turn, gateway_runs, engine_runs, publisher_runs, streamer_drains,
  streamer_serves, main_calls_next, take_turn, main_takes,
}
use nano_exchange.Exchange.Lifecycle.{Action}
use nano_exchange.Engine.{new_books}
use nano_exchange.Exchange.Pending.{pending, follow_ticker}
use nano_exchange.Exchange.Consistency.{Consistent, Admissible, shadows}
use nano_exchange.Exchange.Consistency.Requests.{engine_takes_total}
use nano_exchange.Exchange.Consistency.Feed.{
  publisher_takes-Consistent, streamer_takes_total, serve_turn_total, gateway_turn_total,
}

-- What an exchange of `n` tickers comes to, turn by turn, in any order.
pub data Reachable (lib : Library) (n max_pending pool_size : ℕ) : Exchange → Type 0 where
  begin : Reachable lib n max_pending pool_size (new_exchange n max_pending pool_size)
  turn :
      {x x' : Exchange} (t : Turn)
      → Reachable lib n max_pending pool_size x
      → Admissible n t x
      → take_turn lib t x ≡ some x'
      → Reachable lib n max_pending pool_size x'

-- Of a turn that a stopped thread does not take.
if_running :
    (P : Exchange → Type 0) (b : Bool) (x : Exchange) (y : Option Exchange)
    → P x
    → (x' : Exchange) × (y ≡ some x') × P x'
    → (x' : Exchange) × ((if b then y else some x) ≡ some x') × P x'
if_running P true x y p q = q
if_running P false x y p q = (x, refl, p)

main_takes-Consistent :
    (n : ℕ) (q : List Action) (x : Exchange) → Consistent n x → Consistent n (main_takes q x)
unfolding main_takes
main_takes-Consistent n [] x v = v
main_takes-Consistent n (c ∷ cs) x v = v

take_turn_total :
    (lib : Library) (n : ℕ) (t : Turn) (x : Exchange)
    → Admissible n t x
    → Consistent n x
    → (x' : Exchange) × (take_turn lib t x ≡ some x') × Consistent n x'
unfolding take_turn
take_turn_total lib n (gateway_runs now accepts retry cs) x a v =
    if_running (Consistent n) x.running.gateway x _ v
      (gateway_turn_total lib n now accepts retry cs x v)
take_turn_total lib n (engine_runs address) x a v =
    if_running (Consistent n) x.running.engine x _ v
      (engine_takes_total n address x.request_q x v a)
take_turn_total lib n (publisher_runs ns) x a v =
    if_running (Consistent n) x.running.publisher x _ v
      (_, refl, publisher_takes-Consistent lib n ns x.market_update_q x refl v)
take_turn_total lib n streamer_drains x a v =
    if_running (Consistent n) x.running.streamer x _ v
      (streamer_takes_total n x.streamer_q x refl v)
take_turn_total lib n (streamer_serves cs) x a v =
    if_running (Consistent n) x.running.streamer x _ v (serve_turn_total lib n cs x a v)
take_turn_total lib n main_calls_next x a v = (_, refl, main_takes-Consistent n x.calls x v)

pub take_turn-Consistent :
    (lib : Library) (n : ℕ) (t : Turn) (x x' : Exchange)
    → Admissible n t x
    → Consistent n x
    → take_turn lib t x ≡ some x'
    → Consistent n x'
take_turn-Consistent lib n t x x' a v h =
    let (y, run, w) = take_turn_total lib n t x a v in
    subst (Consistent n) (one_result _ y x' run h) w

new_book-Mirrors : (t : ℕ) → MirrorsBook (new_book t) []
unfolding find shown
new_book-Mirrors t = record { same = λ j. refl; unique = tt; below = tt }

new_exchange-Consistent :
    (n max_pending pool_size : ℕ) → Consistent n (new_exchange n max_pending pool_size)
new_exchange-Consistent n max_pending pool_size = record {
  engine_ok = record { sound = new_books-IsSound n 0; count = length-new_books n 0 };
  as_many = length-empty_books n;
  fed = tt;
  mirrors = λ t b m h k. new-Mirrors n 0 t b m h k;
  current = inl refl;
}
  where
    new-Mirrors :
        (k i t : ℕ) (b : MeOrderBook) (m : Orders)
        → get_elem? (new_books k i) t ≡ some b
        → get_elem? (empty_books k) t ≡ some m
        → MirrorsBook b m
    new-Mirrors zero i t b m h e = cc
    new-Mirrors (suc k) i zero b m h e =
        let f : new_book i ≡ b = cc in
        let g : [] ≡ m = cc in
        subst (λ y. MirrorsBook y m) f (subst (MirrorsBook (new_book i)) g (new_book-Mirrors i))
    new-Mirrors (suc k) i (suc t) b m h e = new-Mirrors k (suc i) t b m h e

pub Reachable-Consistent :
    (lib : Library) (n max_pending pool_size : ℕ) (x : Exchange)
    → Reachable lib n max_pending pool_size x
    → Consistent n x
Reachable-Consistent lib n p q _ begin = new_exchange-Consistent n p q
Reachable-Consistent lib n p q _ (turn {x} {x'} t w a h) =
    take_turn-Consistent lib n t x x' a (Reachable-Consistent lib n p q x w) h

-- Where no update is on its way, the maps mirror the books.
pub settled :
    (n : ℕ) (x : Exchange)
    → x.market_update_q ≡ []
    → x.streamer_q ≡ []
    → Consistent n x
    → (t : ℕ) (b : MeOrderBook) (m : Orders) → get_elem? x.engine.books t ≡ some b
    → get_elem? (shadows x) t ≡ some m
    → MirrorsBook b m
settled n x none_made none_sent v t b m h k =
    let idle : pending x ≡ [] =
      ap (λ us. map (λ u. u.update) us ++ x.market_update_q) none_sent ∙ none_made in
    subst (λ us. MirrorsBook b (follow_ticker t us m)) idle (v.mirrors t b m h k)

-- Of all turns that may come, in whatever order the threads of the exchange have taken them,
-- started or stopped by main in between: where no update is on its way, the shadow book's map of
-- every ticker mirrors the engine's book of it, holding each resting order with its side, price and
-- shares, and nothing else. The turns are those that may come: every request that the engine took
-- was of a ticker that it has, with an address not in use when its order is inserted and an
-- exchange id to spare; no cancel left a part of an order, and no replacement reached the other
-- side, since of these the shadow book is told otherwise; no receive of the streamer waited longer
-- than its deadline; and no queue was full for a push that waits.
pub Reachable-mirrors :
    (lib : Library) (n max_pending pool_size : ℕ) (x : Exchange)
    → Reachable lib n max_pending pool_size x
    → x.market_update_q ≡ []
    → x.streamer_q ≡ []
    → (t : ℕ) (b : MeOrderBook) (m : Orders) → get_elem? x.engine.books t ≡ some b
    → get_elem? (shadows x) t ≡ some m
    → MirrorsBook b m
Reachable-mirrors lib n p q x w none_made none_sent =
    settled n x none_made none_sent (Reachable-Consistent lib n p q x w)
