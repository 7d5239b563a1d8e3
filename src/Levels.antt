-- ===== src/Levels.antt =====
-- The price levels of one side: std::map<Price, PriceLevel> of
-- src/engine/order_book/order_book_map.h, as the list of its entries in the map's order, each with
-- the orders of its intrusive list from head to tail.
pub mod Sorted
pub mod Insert
pub mod Remove
pub mod Find
pub mod Splice
use nano_exchange.Base.{
  ℕ, ◌≤◌, ◌<◌, ◌≡◌, ◌≢◌, Bool, Option, none, some, List, [], ◌∷◌, ◌++◌, ltb, ◌==◌, if◌then◌else◌,
  All,
}
use nano_exchange.Types.{Side, buy, sell, MeOrder, PriceLevel}

-- The comparison of a side's map: std::less for asks, std::greater for bids.
abbrev pub before : Side → ℕ → ℕ → Bool
before sell a b = ltb a b
before buy a b = ltb b a

abbrev pub first : List MeOrder → Option MeOrder
first [] = none
first (o ∷ os) = some o

-- `head` of the level at a price; `none` is nullptr, also where the map has no such level.
unfoldable pub level_head : ℕ → List PriceLevel → Option MeOrder
level_head p [] = none
level_head p (l ∷ ls) = if l.price == p then first l.orders else level_head p ls

-- `levels[price]`, which makes a missing level, and the push at `tail`.
unfoldable pub append_order : Side → MeOrder → List PriceLevel → List PriceLevel
append_order s o [] = record { price = o.price; orders = o ∷ [] } ∷ []
append_order s o (l ∷ ls) =
    if before s o.price l.price
    then record { price = o.price; orders = o ∷ [] } ∷ l ∷ ls
    else if l.price == o.price
    then record l { orders = l.orders ++ o ∷ [] } ∷ ls
    else l ∷ append_order s o ls

-- The links of the neighbours pass over the order at the address.
unfoldable pub unlink : ℕ → List MeOrder → List MeOrder
unlink a [] = []
unlink a (o ∷ os) = if o.address == a then os else o ∷ unlink a os

-- A level whose `head` is nullptr is erased.
abbrev pub keep_level : ℕ → List MeOrder → List PriceLevel → List PriceLevel
keep_level p [] ls = ls
keep_level p (o ∷ os) ls = record { price = p; orders = o ∷ os } ∷ ls

unfoldable pub remove_order : ℕ → ℕ → List PriceLevel → List PriceLevel
remove_order p a [] = []
remove_order p a (l ∷ ls) =
    if l.price == p then keep_level l.price (unlink a l.orders) ls else l ∷ remove_order p a ls

-- A write of `remainingQuantity_` through the pointer to the order at the address.
unfoldable pub write_orders : ℕ → ℕ → List MeOrder → List MeOrder
write_orders a q [] = []
write_orders a q (o ∷ os) =
    if o.address == a then record o { remaining_quantity = q } ∷ os else o ∷ write_orders a q os

-- The order lies at the level of its price.
unfoldable pub write_remaining : ℕ → ℕ → ℕ → List PriceLevel → List PriceLevel
write_remaining p a q [] = []
write_remaining p a q (l ∷ ls) =
    if l.price == p
    then record l { orders = write_orders a q l.orders } ∷ ls
    else l ∷ write_remaining p a q ls

-- All orders, in the order in which they are served.
abbrev pub resting : List PriceLevel → List MeOrder
resting [] = []
resting (l ∷ ls) = l.orders ++ resting ls

-- The order at an address.
unfoldable pub find_order : ℕ → List MeOrder → Option MeOrder
find_order a [] = none
find_order a (o ∷ os) = if o.address == a then some o else find_order a os

-- `a` comes strictly before `b` on the side.
abbrev pub Before : Side → ℕ → ℕ → Type 0
Before sell a b = a < b
Before buy a b = b < a

-- Every level comes strictly after the price.
abbrev pub After : Side → ℕ → List PriceLevel → Type 0
After s p = All (λ l. Before s p l.price)

-- An order that may rest at a price of a side.
pub record OrderOk (s : Side) (p : ℕ) (o : MeOrder) : Type 0 where
  pub at_price : o.price ≡ p
  pub on_side : o.side ≡ s
  pub live : 0 < o.remaining_quantity
  pub within : o.remaining_quantity ≤ o.initial_quantity

-- No level is empty, and its orders have its price.
pub record LevelOk (s : Side) (l : PriceLevel) : Type 0 where
  pub nonempty : l.orders ≢ []
  pub orders_ok : All (OrderOk s l.price) l.orders

-- The levels stand in strict order.
abbrev pub SideOk : Side → List PriceLevel → Type 0
SideOk s [] = Unit {0}
SideOk s (l ∷ ls) = LevelOk s l × After s l.price ls × SideOk s ls
