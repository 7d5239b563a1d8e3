-- ===== src/Levels/Find.antt =====
-- What a pointer into the levels finds.
use nano_exchange.Base.{
  ℕ, ◌≡◌, ◌⊎◌, refl, sym, subst, true, false, inl, inr, none, some, List, [], ◌∷◌, ◌++◌, ◌==◌,
  ==_iff, Bool-cases, All, All-zip, arith,
}
use nano_exchange.Types.{Side, MeOrder, PriceLevel}
use nano_exchange.Levels.{Before, OrderOk, SideOk, find_order, resting}
use nano_exchange.Levels.Sorted.{Before-ne}
use nano_exchange.Levels.Remove.{level_orders}

pub find_order-append :
    (a : ℕ) (xs ys : List MeOrder) (o : MeOrder)
    → find_order a (xs ++ ys) ≡ some o
    → (find_order a xs ≡ some o) ⊎ ((find_order a xs ≡ none) × (find_order a ys ≡ some o))
unfolding find_order
find_order-append a [] ys o h = inr (refl, h)
find_order-append a (x ∷ xs) ys o h = elim (Bool-cases (x.address == a)) [
  | inl e ↦ rw e (inl (rw e at h))
  | inr e ↦ rw e (find_order-append a xs ys o (rw e at h))
]

-- What is found is at its address and has what all orders have.
pub find_order-All {ℓ} :
    (P : MeOrder → Type ℓ) (a : ℕ) (os : List MeOrder) (o : MeOrder)
    → find_order a os ≡ some o
    → All P os
    → (o.address ≡ a) × P o
unfolding find_order
find_order-All P a [] o h v = cc
find_order-All P a (x ∷ os) o h v = elim (Bool-cases (x.address == a)) [
  | inl e ↦
      let k : some x ≡ some o = rw e at h in
      let f : x ≡ o = cc in (ground (arith, f), subst P f v.0)
  | inr e ↦ find_order-All P a os o (rw e at h) v.1
]

-- An order that is found among the resting orders of a side is found at the level of its price.
pub find_level :
    (P : ℕ → Type 0) (s : Side) (a : ℕ) (ls : List PriceLevel) (o : MeOrder)
    → SideOk s ls
    → All (λ l. P l.price) ls
    → find_order a (resting ls) ≡ some o
    → (o.address ≡ a)
      × OrderOk s o.price o
      × P o.price
      × (find_order a (level_orders o.price ls) ≡ some o)
find_level P s a [] o v q h = absurd (unfold find_order in cc h)
find_level P s a (l ∷ ls) o v q h =
    go (find_order-append a l.orders (resting ls) o h)
      (λ k. find_level (λ p. P p × Before s l.price p) s a ls o v.2 (All-zip _ _ ls q.1 v.1) k)
  where
    go :
        (find_order a l.orders ≡ some o)
          ⊎ ((find_order a l.orders ≡ none) × (find_order a (resting ls) ≡ some o))
        → (find_order a (resting ls) ≡ some o
            → (o.address ≡ a)
              × OrderOk s o.price o
              × (P o.price × Before s l.price o.price)
              × (find_order a (level_orders o.price ls) ≡ some o))
        → (o.address ≡ a)
          × OrderOk s o.price o
          × P o.price
          × (find_order a (level_orders o.price (l ∷ ls)) ≡ some o)
    go (inl k) ih =
        let (at, ok) = find_order-All (OrderOk s l.price) a l.orders o k v.0.orders_ok in
        let e : l.price ≡ o.price = sym ok.at_price in
        let f : (l.price == o.price) ≡ true = (==_iff l.price o.price).1 e in
        (at, subst (λ p. OrderOk s p o) e ok, subst P e q.0, rw f k)
    go (inr k) ih =
        let (at, ok, both, found) = ih k.1 in
        let f : (o.price == l.price) ≡ false = Before-ne s l.price o.price both.1 in
        let g : (l.price == o.price) ≡ false = ground (arith, f) in (at, ok, both.0, rw g found)
