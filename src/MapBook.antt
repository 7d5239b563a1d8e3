-- ===== src/MapBook.antt =====
-- src/engine/order_book/order_book_map.h and order_book_map.cpp, the book over std::map.
-- The pool (QuantLink) is a parameter: `address` is what `pool_.allocate` returned. The pushes to
-- the engine are the events of the result, in their order; `next_match_id` is the engine's counter.
pub mod Operations
pub mod Sides
pub mod Fills
pub mod Loop
pub mod Priority
pub mod Valid
pub mod Invariant
pub mod Conservation
pub mod Index
pub mod Soundness
use nano_exchange.Base.{
  ℕ, zero, suc, ◌-◌, Bool, true, false, not, ◌&&◌, Option, none, some, List, [], ◌∷◌, ◌++◌, min,
  ltb, ◌==◌, if◌then◌else◌, ◌>>=◌, inc64, length,
}
use nano_exchange.Types.{
  Side, buy, sell, OrderType, ResponseType, UpdateType, OrderToken, MeClientResponse,
  MeMarketUpdate, MeOrder, PriceLevel, Event, response, update, order_id_invalid,
}
use nano_exchange.Levels.{level_head, append_order, remove_order, write_remaining, resting}

-- The index `orders_` takes a client and its order id to a pointer.
pub record MeOrderBook : Type 0 where
  pub ticker_id : ℕ
  pub asks : List PriceLevel
  pub bids : List PriceLevel
  pub orders : ℕ → ℕ → Option ℕ
  pub next_market_order_id : ℕ

abbrev pub new_book : ℕ → MeOrderBook
new_book ticker_id = record {
  ticker_id = ticker_id;
  asks = [];
  bids = [];
  orders = λ c k. none;
  next_market_order_id = 1;
}

-- The arguments that `match` and `insert` share.
pub record Incoming : Type 0 where
  pub ticker_id : ℕ
  pub client_id : ℕ
  pub client_order_id : ℕ
  pub market_order_id : ℕ
  pub order_type : OrderType
  pub price : ℕ
  pub initial_quantity : ℕ
  pub side : Side
  pub order_token : OrderToken

abbrev pub opposite : Side → Side
opposite buy = sell
opposite sell = buy

abbrev pub levels : Side → MeOrderBook → List PriceLevel
levels buy b = b.bids
levels sell b = b.asks

abbrev pub with_levels : Side → MeOrderBook → List PriceLevel → MeOrderBook
with_levels buy b ls = record b { bids = ls }
with_levels sell b ls = record b { asks = ls }

abbrev pub set_index : ℕ → ℕ → Option ℕ → (ℕ → ℕ → Option ℕ) → ℕ → ℕ → Option ℕ
set_index c k v f c' k' = if (c == c') && (k == k') then v else f c' k'

abbrev pub new_order : ℕ → Incoming → ℕ → MeOrder
new_order address i qty = record {
  address = address;
  client_id = i.client_id;
  client_order_id = i.client_order_id;
  market_order_id = i.market_order_id;
  price = i.price;
  ticker_id = i.ticker_id;
  initial_quantity = qty;
  remaining_quantity = qty;
  order_type = i.order_type;
  side = i.side;
  order_token = i.order_token;
}

unfoldable pub insert : ℕ → Incoming → ℕ → MeOrderBook → MeOrderBook
insert address i qty b =
    let o : MeOrder = new_order address i qty in
    let b' : MeOrderBook = with_levels i.side b (append_order i.side o (levels i.side b)) in
    record b' { orders = set_index i.client_id i.client_order_id (some address) b.orders }

unfoldable pub remove : MeOrder → MeOrderBook → MeOrderBook
remove o b =
    let b' : MeOrderBook =
      with_levels o.side b (remove_order o.price o.address (levels o.side b)) in
    record b' { orders = set_index o.client_id o.client_order_id none b.orders }

-- `order->remainingQuantity_ = q`.
unfoldable pub set_remaining : MeOrder → ℕ → MeOrderBook → MeOrderBook
set_remaining o q b = with_levels o.side b (write_remaining o.price o.address q (levels o.side b))

-- What `match` changes: the book, the engine's match counter, `remainingQuantity`, the pushes.
pub record Matching : Type 0 where
  pub book : MeOrderBook
  pub next_match_id : ℕ
  pub remaining : ℕ
  pub events : List Event

abbrev pub resting_response : Incoming → ℕ → ℕ → ℕ → ℕ → MeOrder → MeClientResponse
resting_response i level_price match_id fill left o = record {
  client_id = o.client_id;
  client_order_id = o.client_order_id;
  market_order_id = o.market_order_id;
  price = o.price;
  execution_price = level_price;
  match_id = match_id;
  ticker_id = i.ticker_id;
  qty = o.initial_quantity;
  executed_qty = fill;
  leaves_qty = left;
  side = o.side;
  order_type = o.order_type;
  status = ResponseType.executed;
  order_token = o.order_token;
}

-- A response to the sender of the incoming order.
abbrev pub own_response : Incoming → ResponseType → ℕ → ℕ → ℕ → ℕ → MeClientResponse
own_response i status fill execution_price left match_id = record {
  client_id = i.client_id;
  client_order_id = i.client_order_id;
  market_order_id = i.market_order_id;
  price = i.price;
  execution_price = execution_price;
  match_id = match_id;
  ticker_id = i.ticker_id;
  qty = i.initial_quantity;
  executed_qty = fill;
  leaves_qty = left;
  side = i.side;
  order_type = i.order_type;
  status = status;
  order_token = i.order_token;
}

abbrev pub trade_update : Incoming → ℕ → ℕ → MeOrder → MeMarketUpdate
trade_update i match_id fill o = record {
  ticker_id = i.ticker_id;
  market_order_id = o.market_order_id;
  update_type = UpdateType.trade;
  side = o.side;
  price = o.price;
  qty = fill;
  new_order_id = order_id_invalid;
  match_id = match_id;
}

-- The three pushes of one fill; `left` and `remaining` are what the two orders keep.
abbrev pub fill_events : Incoming → ℕ → ℕ → ℕ → ℕ → ℕ → MeOrder → List Event
fill_events i level_price match_id fill left remaining o =
    response (resting_response i level_price match_id fill left o)
    ∷ response (own_response i ResponseType.executed fill level_price remaining match_id)
    ∷ update (trade_update i match_id fill o)
    ∷ []

-- The body of the inner loop, at `priceLevel.head`.
unfoldable pub fill_head : Incoming → ℕ → MeOrder → Matching → Matching
fill_head i level_price o m =
    let fill : ℕ = min m.remaining o.remaining_quantity in
    let left : ℕ = o.remaining_quantity - fill in
    let b : MeOrderBook = set_remaining o left m.book in
    record {
      book = if left == 0 then remove o b else b;
      next_match_id = inc64 m.next_match_id;
      remaining = m.remaining - fill;
      events =
          m.events ++ fill_events i level_price m.next_match_id fill left (m.remaining - fill) o;
    }

-- `while (priceLevel.head != nullptr && remainingQuantity > 0)`, on fuel. After the erasure of the
-- level the code reads `head` of the freed node; here that is nullptr.
unfoldable pub match_level : ℕ → Incoming → ℕ → Matching → Option Matching
match_level zero i p m = none
match_level (suc n) i p m = elim (level_head p (levels (opposite i.side) m.book)) [
  | none ↦ some m
  | some o ↦ elim (ltb 0 m.remaining) [
    | true ↦ match_level n i p (fill_head i p o m)
    | false ↦ some m
  ]
]

-- The incoming limit does not reach the level.
abbrev pub breaks : Side → ℕ → ℕ → Bool
breaks buy price level_price = ltb price level_price
breaks sell price level_price = ltb level_price price

-- `for (it = begin(); it != end() && remainingQuantity > 0;)`, on fuel for each loop.
unfoldable pub match_loop : ℕ → ℕ → Incoming → Matching → Option Matching
match_loop zero k i m = none
match_loop (suc n) k i m = elim (levels (opposite i.side) m.book) [
  | [] ↦ some m
  | l ∷ ls ↦ elim (ltb 0 m.remaining && not (breaks i.side i.price l.price)) [
    | true ↦ match_level k i l.price m >>= λ m'. match_loop n k i m'
    | false ↦ some m
  ]
]

-- Each round but the last of either loop fills an order or ends the quantity.
abbrev pub fuel : Incoming → MeOrderBook → ℕ
fuel i b = suc (suc (length (resting (levels (opposite i.side) b))))

unfoldable pub match_order : Incoming → ℕ → MeOrderBook → Option Matching
match_order i next_match_id b = match_loop (fuel i b) (fuel i b) i (record {
  book = b;
  next_match_id = next_match_id;
  remaining = i.initial_quantity;
  events = [];
})
