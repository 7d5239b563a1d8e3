-- ===== src/VectorBook.antt =====
-- src/engine/order_book/order_book_vector.h and order_book_vector.cpp, the book over vectors of
-- price levels: the array of all levels of a side, of which those with orders are linked, best
-- first. It has the interface of the book over std::map, whose messages it shares where the two
-- sources build them alike. `address` is what `pool_.allocate` returned; `none` is an index out of
-- the array's bounds, a pointer at which there is no order, or a loop that ran out of fuel. The
-- engine's pointer is set.
pub mod Links
pub mod Operations
pub mod Slots
pub mod Removal
pub mod Sides
pub mod Refines
pub mod Matches
pub mod Resting
pub mod Loops
pub mod Agreement
pub mod Cancels
pub mod Replaces
pub mod Lockstep
use nano_exchange.Base.{
  ℕ, zero, suc, ◌+◌, ◌-◌, Bool, true, false, not, ◌&&◌, Option, none, some, List, [], ◌∷◌, ◌++◌,
  min, ltb, ◌==◌, if◌then◌else◌, ◌>>=◌, inc64, length, update_at,
}
use nano_exchange.Types.{
  Side, buy, sell, ResponseType, UpdateType, MeMarketUpdate, MeOrder, Event, response, update,
  order_id_invalid,
}
use nano_exchange.Levels.{first, unlink, write_orders}
use nano_exchange.MapBook.{
  Incoming, opposite, set_index, new_order, resting_response, own_response, breaks,
}
use nano_exchange.VectorBook.Links.{LevelLinks, no_links, insert_price_level, remove_price_level}

abbrev pub max_price_levels : ℕ
max_price_levels = 256000

-- The array of a side: `slots p` are the orders of the level at index `p`, from `head` to `tail`,
-- whose price is `p`; `links` are the links of the levels and the best one.
pub record PriceLevels : Type 0 where
  pub slots : ℕ → List MeOrder
  pub links : LevelLinks

pub record MeOrderBook : Type 0 where
  pub ticker_id : ℕ
  pub asks : PriceLevels
  pub bids : PriceLevels
  pub orders : ℕ → ℕ → Option ℕ
  pub next_market_order_id : ℕ

abbrev pub no_levels : PriceLevels
no_levels = record { slots = λ p. []; links = no_links }

abbrev pub new_book : ℕ → MeOrderBook
new_book ticker_id = record {
  ticker_id = ticker_id;
  asks = no_levels;
  bids = no_levels;
  orders = λ c k. none;
  next_market_order_id = 1;
}

abbrev pub levels : Side → MeOrderBook → PriceLevels
levels buy b = b.bids
levels sell b = b.asks

abbrev pub with_levels : Side → MeOrderBook → PriceLevels → MeOrderBook
with_levels buy b ls = record b { bids = ls }
with_levels sell b ls = record b { asks = ls }

-- A level without orders joins the active ones. The walk passes each level of the array at most
-- once.
abbrev pub activate : Side → ℕ → List MeOrder → LevelLinks → Option LevelLinks
activate s p [] l = insert_price_level max_price_levels s p l
activate s p (o ∷ os) l = some l

-- A level whose last order has left leaves the active ones.
abbrev pub deactivate : ℕ → List MeOrder → LevelLinks → LevelLinks
deactivate p [] l = remove_price_level p l
deactivate p (o ∷ os) l = l

abbrev pub put_orders : ℕ → List MeOrder → LevelLinks → PriceLevels → PriceLevels
put_orders p os l ls = record { slots = update_at p os ls.slots; links = l }

-- On a side.
unfoldable pub insert_at : Side → MeOrder → PriceLevels → Option PriceLevels
insert_at s o ls =
    if ltb o.price max_price_levels
    then (activate s o.price (ls.slots o.price) ls.links >>= λ l.
        some (put_orders o.price (ls.slots o.price ++ o ∷ []) l ls))
    else none

unfoldable pub remove_at : ℕ → ℕ → PriceLevels → PriceLevels
remove_at p a ls =
    let os : List MeOrder = unlink a (ls.slots p) in put_orders p os (deactivate p os ls.links) ls

unfoldable pub write_at : ℕ → ℕ → ℕ → PriceLevels → PriceLevels
write_at p a q ls = put_orders p (write_orders a q (ls.slots p)) ls.links ls

unfoldable pub insert : ℕ → Incoming → ℕ → MeOrderBook → Option MeOrderBook
unfolding insert_at
insert address i qty b = insert_at i.side (new_order address i qty) (levels i.side b) >>= λ ls.
    some (record (with_levels i.side b ls) {
      orders = set_index i.client_id i.client_order_id (some address) b.orders;
    })

unfoldable pub remove : MeOrder → MeOrderBook → MeOrderBook
unfolding remove_at
remove o b =
    let b' : MeOrderBook = with_levels o.side b (remove_at o.price o.address (levels o.side b)) in
    record b' { orders = set_index o.client_id o.client_order_id none b.orders }

-- `order->remainingQuantity_ = q`.
unfoldable pub set_remaining : MeOrder → ℕ → MeOrderBook → MeOrderBook
unfolding write_at
set_remaining o q b = with_levels o.side b (write_at o.price o.address q (levels o.side b))

pub record Matching : Type 0 where
  pub book : MeOrderBook
  pub next_match_id : ℕ
  pub remaining : ℕ
  pub events : List Event

-- The update of a fill names no match.
abbrev pub trade_update : Incoming → ℕ → MeOrder → MeMarketUpdate
trade_update i fill o = record {
  ticker_id = i.ticker_id;
  market_order_id = o.market_order_id;
  update_type = UpdateType.trade;
  side = o.side;
  price = o.price;
  qty = fill;
  new_order_id = order_id_invalid;
  match_id = order_id_invalid;
}

-- The three pushes of one fill; `left` and `remaining` are what the two orders keep.
abbrev pub fill_events : Incoming → ℕ → ℕ → ℕ → ℕ → ℕ → MeOrder → List Event
fill_events i level_price match_id fill left remaining o =
    response (resting_response i level_price match_id fill left o)
    ∷ response (own_response i ResponseType.executed fill level_price remaining match_id)
    ∷ update (trade_update i fill o)
    ∷ []

-- The body of the inner loop, at `level->head`.
unfoldable pub fill_head : Incoming → ℕ → MeOrder → Matching → Matching
fill_head i level_price o m =
    let fill : ℕ = min m.remaining o.remaining_quantity in
    let left : ℕ = o.remaining_quantity - fill in
    let b : MeOrderBook = set_remaining o left m.book in
    record {
      book = if left == 0 then remove o b else b;
      next_match_id = inc64 m.next_match_id;
      remaining = m.remaining - fill;
      events =
          m.events ++ fill_events i level_price m.next_match_id fill left (m.remaining - fill) o;
    }

-- `while (level->head && remainingQuantity > 0)`, on fuel; the level stays in the array.
unfoldable pub match_level : ℕ → Incoming → ℕ → Matching → Option Matching
match_level zero i p m = none
match_level (suc n) i p m = elim (first ((levels (opposite i.side) m.book).slots p)) [
  | none ↦ some m
  | some o ↦ elim (ltb 0 m.remaining) [
    | true ↦ match_level n i p (fill_head i p o m)
    | false ↦ some m
  ]
]

-- `while (level && remainingQuantity > 0)`, on fuel for each loop.
unfoldable pub match_loop : ℕ → ℕ → Incoming → Matching → Option Matching
match_loop zero k i m = none
match_loop (suc n) k i m = elim (levels (opposite i.side) m.book).links.best [
  | none ↦ some m
  | some p ↦ elim (ltb 0 m.remaining && not (breaks i.side i.price p)) [
    | true ↦ match_level k i p m >>= λ m'. match_loop n k i m'
    | false ↦ some m
  ]
]

-- The orders of the active levels from one on.
unfoldable pub active_orders : ℕ → PriceLevels → Option ℕ → List MeOrder
active_orders zero ls start = []
active_orders (suc n) ls none = []
active_orders (suc n) ls (some p) = ls.slots p ++ active_orders n ls (ls.links.next p)

unfoldable pub resting : PriceLevels → List MeOrder
resting ls = active_orders max_price_levels ls ls.links.best

abbrev pub fuel : Incoming → MeOrderBook → ℕ
fuel i b = suc (suc (length (resting (levels (opposite i.side) b))))

unfoldable pub match_order : Incoming → ℕ → MeOrderBook → Option Matching
match_order i next_match_id b = match_loop (fuel i b) (fuel i b) i (record {
  book = b;
  next_match_id = next_match_id;
  remaining = i.initial_quantity;
  events = [];
})
