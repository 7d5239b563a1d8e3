-- ===== src/VectorBook/Resting.antt =====
-- The orders that rest in the two books are the same, in the same order.
use nano_exchange.Base.{
  ℕ, zero, suc, ◌≤◌, ◌≡◌, refl, ap, ap₂, ◌∙◌, false, Option, none, some, List, [], ◌∷◌, ◌++◌, All,
  All-map, All-zip, length, ◌==◌, ==_refl, arith,
}
use nano_exchange.Types.{Side, PriceLevel}
use nano_exchange.Levels.{SideOk, Before}
use nano_exchange.Levels
use nano_exchange.Levels.Sorted.{Before-ne}
use nano_exchange.Levels.Remove.{level_orders}
use nano_exchange.VectorBook.{PriceLevels, max_price_levels, active_orders, resting}
use nano_exchange.VectorBook.Links.{Chain}
use nano_exchange.VectorBook.Slots.{prices}
use nano_exchange.VectorBook.Sides.{SideRefines, prices-length}

own_orders :
    (s : Side) (ls : List PriceLevel)
    → SideOk s ls
    → All (λ l. level_orders l.price ls ≡ l.orders) ls
own_orders s [] v = tt
own_orders s (l ∷ ls) v = (
  rw (==_refl l.price) refl,
  All-map _ _ ls
      (λ x (h : Before s l.price x.price × (level_orders x.price ls ≡ x.orders)).
        let e : (x.price == l.price) ≡ false = Before-ne s l.price x.price h.0 in
        let f : (l.price == x.price) ≡ false = ground (arith, e) in rw f h.1)
      (All-zip _ _ ls v.1 (own_orders s ls v.2)),
)

active_orders-resting :
    (n : ℕ) (vl : PriceLevels) (q start : Option ℕ) (ls : List PriceLevel)
    → Chain vl.links q start (prices ls)
    → All (λ l. vl.slots l.price ≡ l.orders) ls
    → length (prices ls) ≤ n
    → active_orders n vl start ≡ Levels.resting ls
unfolding active_orders
active_orders-resting zero vl q start [] c h k = refl
active_orders-resting zero vl q start (l ∷ ls) c h k = absurd (omega arith)
active_orders-resting (suc n) vl q start [] c h k = ap (active_orders (suc n) vl) c
active_orders-resting (suc n) vl q start (l ∷ ls) c h k =
    ap (active_orders (suc n) vl) c.0
    ∙ ap₂ (λ xs ys. xs ++ ys) h.0
        (active_orders-resting n vl (some l.price) (vl.links.next l.price) ls c.2 h.1 (omega arith))

pub resting-refines :
    (s : Side) (vl : PriceLevels) (ls : List PriceLevel)
    → SideRefines s vl ls
    → resting vl ≡ Levels.resting ls
unfolding resting
resting-refines s vl ls r =
    active_orders-resting max_price_levels vl none vl.links.best ls r.linked.chain
      (All-map _ _ ls (λ l h. r.at_price l.price ∙ h) (own_orders s ls r.ok))
      (prices-length s ls r.ok r.bounded)
