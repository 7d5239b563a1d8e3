-- ===== src/Tests/Books.antt =====
-- The book over std::map and the engine.
use nano_exchange.Base.{
  ℕ, ◌+◌, ◌<◌, ◌≡◌, refl, Option, none, some, List, [], ◌∷◌, ◌++◌, All, arith, get_elem?,
  if◌then◌else◌, ◌&&◌, ◌==◌,
}
use nano_exchange.Types.{
  Side, buy, sell, good_till_cancel, ClientRequestType, MeClientRequest, MeOrder, PriceLevel,
  zero_token, Event,
}
use nano_exchange.Levels.{
  SideOk, resting, find_order, level_head, append_order, remove_order, write_remaining, unlink,
  write_orders, OrderOk,
}
use nano_exchange.MapBook.{
  MeOrderBook, Incoming, Matching, match_order, match_loop, match_level, fill_head, insert, remove,
  set_remaining, new_book,
}
use nano_exchange.MapBook.Operations.{
  Outcome, add_order, cancel_order, replace_order, rest_or_kill, rest_or_kill_replaced, deref,
}
use nano_exchange.MapBook.Valid.{IsValid}
use nano_exchange.MapBook.Invariant.{Points, add_order-IsValid}
use nano_exchange.MapBook.Priority.{serve, served, queue, match_order-serve}
use nano_exchange.MapBook.Conservation.{
  traded, shares, WithinLimit, match_order-conserves, match_order-WithinLimit,
}
use nano_exchange.Market.Source.{OnFeed, dispatch-OnFeed}
use nano_exchange.Engine.{dispatch, MatchingEngine, process_client_request}
use nano_exchange.Engine.Isolation.{process-isolated}

abbrev pub order : ℕ → ℕ → ℕ → Side → ℕ → ℕ → MeOrder
order address client id side price qty = record {
  address = address;
  client_id = client;
  client_order_id = id;
  market_order_id = address;
  price = price;
  ticker_id = 0;
  initial_quantity = qty;
  remaining_quantity = qty;
  order_type = good_till_cancel;
  side = side;
  order_token = zero_token;
}

-- Two asks at 101, the earlier first, one at 103, and a bid at 99.
abbrev pub asks : List PriceLevel
asks =
    record { price = 101; orders = order 1 1 1 sell 101 5 ∷ order 2 2 2 sell 101 5 ∷ [] }
    ∷ record { price = 103; orders = order 3 1 3 sell 103 5 ∷ [] }
    ∷ []

abbrev pub bids : List PriceLevel
bids = record { price = 99; orders = order 4 3 4 buy 99 5 ∷ [] } ∷ []

abbrev pub index : ℕ → ℕ → Option ℕ
index c k =
    if (c == 1) && (k == 1)
    then some 1
    else if (c == 2) && (k == 2)
    then some 2
    else if (c == 1) && (k == 3)
    then some 3
    else if (c == 3) && (k == 4)
    then some 4
    else none

abbrev pub book : MeOrderBook
book = record { ticker_id = 0; asks = asks; bids = bids; orders = index; next_market_order_id = 5 }

sound :
    (address client id : ℕ) (s : Side) (p q : ℕ)
    → 0 < q
    → OrderOk s p (order address client id s p q)
sound address client id s p q h = record {
  at_price = refl;
  on_side = refl;
  live = h;
  within = omega arith;
}

asks-SideOk : SideOk sell asks
asks-SideOk = (
  record {
    nonempty = λ e. cc;
    orders_ok = (sound 1 1 1 sell 101 5 (omega arith), (sound 2 2 2 sell 101 5 (omega arith), tt));
  },
  omega arith,
  (record { nonempty = λ e. cc; orders_ok = (sound 3 1 3 sell 103 5 (omega arith), tt) }, tt, tt),
)

pub book-IsValid : IsValid book
book-IsValid = record {
  bids_ok =
      (record { nonempty = λ e. cc; orders_ok = (sound 4 3 4 buy 99 5 (omega arith), tt) }, tt, tt);
  asks_ok = asks-SideOk;
  uncrossed = omega arith;
}

pub book-Points : Points book 2 2
unfolding deref find_order
book-Points a e =
    let k : some 2 ≡ some a = e in let j : 2 ≡ a = cc in (order 2 2 2 sell 101 5, rw (← j) refl)

-- A bid for 7 at 102 takes all of the first ask and 2 of the second.
abbrev bid : Incoming
bid = record {
  ticker_id = 0;
  client_id = 9;
  client_order_id = 5;
  market_order_id = 5;
  order_type = good_till_cancel;
  price = 102;
  initial_quantity = 7;
  side = buy;
  order_token = zero_token;
}

-- The shares that a call leaves on both sides.
abbrev left : Option Outcome → Option (ℕ × ℕ)
left none = none
left (some r) = some (shares (resting r.book.bids), shares (resting r.book.asks))

bid_fills : left (add_order 5 0 9 5 good_till_cancel 102 12 buy zero_token 1 book) ≡ some (7, 5)
unfolding add_order match_order match_loop match_level fill_head set_remaining remove insert
    level_head append_order remove_order write_remaining unlink write_orders rest_or_kill
bid_fills = refl

cancel_removes : left (cancel_order 0 2 2 0 zero_token 1 book) ≡ some (5, 10)
unfolding cancel_order set_remaining remove find_order remove_order write_remaining unlink
    write_orders
cancel_removes = refl

replace_moves :
    left (replace_order 6 0 2 2 7 good_till_cancel 98 3 zero_token 1 book) ≡ some (2, 10)
unfolding replace_order match_order match_loop match_level fill_head set_remaining remove insert
    level_head append_order remove_order write_remaining unlink write_orders find_order
    rest_or_kill_replaced
replace_moves = refl

match_order-serve_example :
    (m' : Matching) × (match_order bid 1 book ≡ some m')
    × (served bid m' ≡ serve bid 1 7 [] (queue bid book))
match_order-serve_example = match_order-serve bid 1 book asks-SideOk

match_order-conserves_example :
    (m : Matching) × (match_order bid 1 book ≡ some m)
    × (m.remaining + traded m.events ≡ 7)
    × (shares (queue bid m.book) + traded m.events ≡ 15)
match_order-conserves_example = match_order-conserves bid 1 book asks-SideOk

match_order-WithinLimit_example :
    (m : Matching) × (match_order bid 1 book ≡ some m) × All (WithinLimit bid) m.events
match_order-WithinLimit_example = match_order-WithinLimit bid 1 book asks-SideOk

add_order-IsValid_example :
    (r : Outcome) × (add_order 5 0 9 5 good_till_cancel 102 12 buy zero_token 1 book ≡ some r)
    × IsValid r.book
add_order-IsValid_example =
    add_order-IsValid 5 0 9 5 good_till_cancel 102 12 buy zero_token 1 book book-IsValid

abbrev request : MeClientRequest
request = record {
  client_id = 2;
  client_order_id = 2;
  new_client_order_id = 0;
  price = 0;
  ticker_id = 0;
  qty = 3;
  action = ClientRequestType.cancel;
  order_type = good_till_cancel;
  side = buy;
  order_token = zero_token;
}

abbrev engine : MatchingEngine
engine = record { books = book ∷ new_book 1 ∷ []; next_match_id = 1; events = [] }

process-isolated_example :
    (e' : MatchingEngine) × (b' : MeOrderBook) × (new : List Event) × (process_client_request 9
        request engine
      ≡ some e')
    × (get_elem? e'.books 0 ≡ some b')
    × IsValid b'
    × (get_elem? e'.books 1 ≡ some (new_book 1))
    × (e'.events ≡ [] ++ new)
process-isolated_example =
    process-isolated 9 request engine book 1 refl (omega arith) book-IsValid book-Points
      (omega arith)

dispatch-OnFeed_example :
    (o : Outcome) × (dispatch ClientRequestType.cancel 9 request 1 book ≡ some o)
    × All (OnFeed 0) o.events
dispatch-OnFeed_example =
    dispatch-OnFeed ClientRequestType.cancel 9 request 1 book book-IsValid book-Points
