-- ===== src/VectorBook/Removal.antt =====
-- How the removal of an order and a write through a pointer change the orders at a price and the
-- prices that have orders.
use nano_exchange.Base.{
  ℕ, ◌≡◌, ◌≢◌, refl, ap, false, inl, inr, List, [], ◌∷◌, ◌==◌, ==_refl, Bool-cases, arith,
}
use nano_exchange.Types.{Side, MeOrder, PriceLevel}
use nano_exchange.Levels.{
  After, SideOk, unlink, keep_level, remove_order, write_orders, write_remaining,
}
use nano_exchange.Levels.Remove.{level_orders}
use nano_exchange.VectorBook.Slots.{prices, level_orders-After}
use nano_exchange.VectorBook.Links.Remove.{remove_price}

-- Removing.

-- The level of the orders that are left, if any.
keep_level_orders :
    (s : Side) (p : ℕ) (os : List MeOrder) (ls : List PriceLevel)
    → After s p ls
    → level_orders p (keep_level p os ls) ≡ os
keep_level_orders s p [] ls h = level_orders-After s p ls h
keep_level_orders s p (o ∷ os) ls h = rw (==_refl p) refl

keep_level_other :
    (p x : ℕ) (os : List MeOrder) (ls : List PriceLevel)
    → (p == x) ≡ false
    → level_orders x (keep_level p os ls) ≡ level_orders x ls
keep_level_other p x [] ls h = refl
keep_level_other p x (o ∷ os) ls h = rw h refl

pub level_orders-remove :
    (s : Side) (p a : ℕ) (ls : List PriceLevel)
    → SideOk s ls
    → level_orders p (remove_order p a ls) ≡ unlink a (level_orders p ls)
unfolding remove_order
level_orders-remove s p a [] v = unfold unlink in refl
level_orders-remove s p a (l ∷ ls) v = elim (Bool-cases (l.price == p)) [
  | inl e ↦
      let f : l.price ≡ p = ground (arith, e) in
      rw e (rw f (keep_level_orders s p (unlink a l.orders) ls (rw f at v.1)))
  | inr e ↦ rw e (rw e (level_orders-remove s p a ls v.2))
]

pub level_orders-remove_other :
    (p a x : ℕ) (ls : List PriceLevel)
    → (x == p) ≡ false
    → level_orders x (remove_order p a ls) ≡ level_orders x ls
unfolding remove_order
level_orders-remove_other p a x [] h = refl
level_orders-remove_other p a x (l ∷ ls) h = elim (Bool-cases (l.price == p)) [
  | inl e ↦
      let k : (l.price == x) ≡ false = ground (arith, e, h) in
      rw e (rw k (keep_level_other l.price x (unlink a l.orders) ls k))
  | inr e ↦ rw e (elim (Bool-cases (l.price == x)) [
    | inl g ↦ rw g refl
    | inr g ↦ rw g (level_orders-remove_other p a x ls h)
  ])
]

-- The last order at the price leaves.
pub prices-remove_last :
    (p a : ℕ) (ls : List PriceLevel)
    → unlink a (level_orders p ls) ≡ []
    → prices (remove_order p a ls) ≡ remove_price p (prices ls)
unfolding remove_order
prices-remove_last p a [] h = refl
prices-remove_last p a (l ∷ ls) h = elim (Bool-cases (l.price == p)) [
  | inl e ↦
      let k : unlink a l.orders ≡ [] = rw e at h in
      rw e (ap (λ os. prices (keep_level l.price os ls)) k)
  | inr e ↦ rw e (ap (λ ps. l.price ∷ ps) (prices-remove_last p a ls (rw e at h)))
]

prices-keep :
    (p : ℕ) (os : List MeOrder) (ls : List PriceLevel)
    → os ≢ []
    → prices (keep_level p os ls) ≡ p ∷ prices ls
prices-keep p [] ls h = absurd (h refl)
prices-keep p (o ∷ os) ls h = refl

pub prices-remove_one :
    (p a : ℕ) (ls : List PriceLevel)
    → unlink a (level_orders p ls) ≢ []
    → prices (remove_order p a ls) ≡ prices ls
unfolding remove_order
prices-remove_one p a [] h = refl
prices-remove_one p a (l ∷ ls) h = elim (Bool-cases (l.price == p)) [
  | inl e ↦ rw e (prices-keep l.price (unlink a l.orders) ls (rw e at h))
  | inr e ↦ rw e (ap (λ ps. l.price ∷ ps) (prices-remove_one p a ls (rw e at h)))
]

-- Writing.

pub level_orders-write :
    (p a q : ℕ) (ls : List PriceLevel)
    → level_orders p (write_remaining p a q ls) ≡ write_orders a q (level_orders p ls)
unfolding write_remaining
level_orders-write p a q [] = unfold write_orders in refl
level_orders-write p a q (l ∷ ls) = elim (Bool-cases (l.price == p)) [
  | inl e ↦ rw e (rw e refl)
  | inr e ↦ rw e (rw e (level_orders-write p a q ls))
]

pub level_orders-write_other :
    (p a q x : ℕ) (ls : List PriceLevel)
    → (x == p) ≡ false
    → level_orders x (write_remaining p a q ls) ≡ level_orders x ls
unfolding write_remaining
level_orders-write_other p a q x [] h = refl
level_orders-write_other p a q x (l ∷ ls) h = elim (Bool-cases (l.price == p)) [
  | inl e ↦ let k : (l.price == x) ≡ false = ground (arith, e, h) in rw e (rw k refl)
  | inr e ↦ rw e (elim (Bool-cases (l.price == x)) [
    | inl g ↦ rw g refl
    | inr g ↦ rw g (level_orders-write_other p a q x ls h)
  ])
]

pub prices-write :
    (p a q : ℕ) (ls : List PriceLevel) → prices (write_remaining p a q ls) ≡ prices ls
unfolding write_remaining
prices-write p a q [] = refl
prices-write p a q (l ∷ ls) = elim (Bool-cases (l.price == p)) [
  | inl e ↦ rw e refl
  | inr e ↦ rw e (ap (λ ps. l.price ∷ ps) (prices-write p a q ls))
]
