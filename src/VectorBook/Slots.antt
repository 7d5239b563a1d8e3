-- ===== src/VectorBook/Slots.antt =====
-- The orders at a price, and the prices that have orders: how each write of the levels of a side
-- changes the two.
use nano_exchange.Base.{
  ℕ, suc, ◌+◌, ◌<◌, ◌≤◌, ◌≡◌, ◌≢◌, refl, ap, ◌∙◌, true, false, inl, inr, List, [], ◌∷◌, ◌++◌, All,
  All-map, length, ◌==◌, ==_refl, Bool-cases, arith,
}
use nano_exchange.Types.{Side, buy, sell, MeOrder, PriceLevel}
use nano_exchange.Levels.{before, Before, After, SideOk, append_order}
use nano_exchange.Levels.Sorted.{Before-ne, before→Before, After-trans}
use nano_exchange.Levels.Remove.{level_orders}
use nano_exchange.VectorBook.Links.{Absent, Ordered}
use nano_exchange.VectorBook.Links.Walk.{insert_price}
use nano_exchange.VectorBook.Links.Remove.{member}

abbrev pub prices : List PriceLevel → List ℕ
prices [] = []
prices (l ∷ ls) = l.price ∷ prices ls

==_sym : (x y : ℕ) → (x == y) ≡ (y == x)
==_sym x y = ground arith

pub prices-All {ℓ} :
    (P : ℕ → Type ℓ) (ls : List PriceLevel) → All (λ l. P l.price) ls → All P (prices ls)
prices-All P [] h = tt
prices-All P (l ∷ ls) h = (h.0, prices-All P ls h.1)

pub prices-Ordered : (s : Side) (ls : List PriceLevel) → SideOk s ls → Ordered s (prices ls)
prices-Ordered s [] v = tt
prices-Ordered s (l ∷ ls) v = (prices-All (Before s l.price) ls v.1, prices-Ordered s ls v.2)

-- A price before all levels has no orders.
pub level_orders-After :
    (s : Side) (p : ℕ) (ls : List PriceLevel) → After s p ls → level_orders p ls ≡ []
level_orders-After s p [] h = refl
level_orders-After s p (l ∷ ls) h = rw (Before-ne s p l.price h.0) (level_orders-After s p ls h.1)

pub prices-Absent :
    (s : Side) (p : ℕ) (ls : List PriceLevel)
    → SideOk s ls
    → level_orders p ls ≡ []
    → Absent p (prices ls)
prices-Absent s p [] v h = tt
prices-Absent s p (l ∷ ls) v h = elim (Bool-cases (l.price == p)) [
  | inl e ↦ absurd (v.0.nonempty (rw e at h))
  | inr e ↦ (λ f. ground (arith, e, f), prices-Absent s p ls v.2 (rw e at h))
]

pub prices-member :
    (p : ℕ) (ls : List PriceLevel) → level_orders p ls ≢ [] → member p (prices ls) ≡ true
prices-member p [] h = absurd (h refl)
prices-member p (l ∷ ls) h = elim (Bool-cases (l.price == p)) [
  | inl e ↦ rw e refl
  | inr e ↦ rw e (prices-member p ls (rw e at h))
]

-- Distinct prices below a bound are no more than the bound.
ascending-length :
    (n lo : ℕ) (ps : List ℕ)
    → lo ≤ n
    → Ordered sell ps
    → All (λ p. lo ≤ p) ps
    → All (λ p. p < n) ps
    → length ps + lo ≤ n
ascending-length n lo [] h o a b = omega arith
ascending-length n lo (p ∷ ps) h o a b =
    let k : length ps + suc p ≤ n =
      ascending-length n (suc p) ps (let x : p < n = b.0 in omega arith) o.1
        (All-map _ _ ps (λ x (y : p < x). omega arith) o.0) b.1 in
    let x : lo ≤ p = a.0 in omega arith

descending-length : (n : ℕ) (ps : List ℕ) → Ordered buy ps → All (λ p. p < n) ps → length ps ≤ n
descending-length n [] o b = omega arith
descending-length n (p ∷ ps) o b =
    let k : length ps ≤ p = descending-length p ps o.1 o.0 in let x : p < n = b.0 in omega arith

pub Ordered-length :
    (s : Side) (n : ℕ) (ps : List ℕ) → Ordered s ps → All (λ p. p < n) ps → length ps ≤ n
Ordered-length buy n ps o b = descending-length n ps o b
Ordered-length sell n ps o b =
    let k : length ps + 0 ≤ n =
      ascending-length n 0 ps (omega arith) o (All-map _ _ ps (λ x y. omega arith) b) b in
    omega arith

-- Appending an order.

pub level_orders-append :
    (s : Side) (o : MeOrder) (ls : List PriceLevel)
    → SideOk s ls
    → level_orders o.price (append_order s o ls) ≡ level_orders o.price ls ++ o ∷ []
unfolding append_order
level_orders-append s o [] v = rw (==_refl o.price)
level_orders-append s o (l ∷ ls) v = elim (Bool-cases (before s o.price l.price)) [
  | inl e ↦
      let b : Before s o.price l.price = before→Before s o.price l.price e in
      rw e (
        rw (
          ==_refl o.price,
          Before-ne s o.price l.price b,
          level_orders-After s o.price ls (After-trans s o.price l.price ls b v.1),
        ))
  | inr e ↦ rw e (elim (Bool-cases (l.price == o.price)) [
    | inl f ↦ rw f (rw f refl)
    | inr f ↦ rw f (rw f (level_orders-append s o ls v.2))
  ])
]

pub level_orders-append_other :
    (s : Side) (o : MeOrder) (x : ℕ) (ls : List PriceLevel)
    → (x == o.price) ≡ false
    → level_orders x (append_order s o ls) ≡ level_orders x ls
unfolding append_order
level_orders-append_other s o x [] h = rw (==_sym o.price x ∙ h)
level_orders-append_other s o x (l ∷ ls) h = elim (Bool-cases (before s o.price l.price)) [
  | inl e ↦ rw e (rw (==_sym o.price x ∙ h))
  | inr e ↦ rw e (elim (Bool-cases (l.price == o.price)) [
    | inl f ↦ let k : (l.price == x) ≡ false = ground (arith, f, h) in rw f (rw k refl)
    | inr f ↦ rw f (elim (Bool-cases (l.price == x)) [
      | inl g ↦ rw g refl
      | inr g ↦ rw g (level_orders-append_other s o x ls h)
    ])
  ])
]

pub prices-append_new :
    (s : Side) (o : MeOrder) (ls : List PriceLevel)
    → SideOk s ls
    → level_orders o.price ls ≡ []
    → prices (append_order s o ls) ≡ insert_price s o.price (prices ls)
unfolding append_order
prices-append_new s o [] v h = refl
prices-append_new s o (l ∷ ls) v h = elim (Bool-cases (before s o.price l.price)) [
  | inl e ↦ rw e refl
  | inr e ↦ rw e (elim (Bool-cases (l.price == o.price)) [
    | inl f ↦ absurd (v.0.nonempty (rw f at h))
    | inr f ↦ rw f (ap (λ ps. l.price ∷ ps) (prices-append_new s o ls v.2 (rw f at h)))
  ])
]

pub prices-append_old :
    (s : Side) (o : MeOrder) (ls : List PriceLevel)
    → SideOk s ls
    → level_orders o.price ls ≢ []
    → prices (append_order s o ls) ≡ prices ls
unfolding append_order
prices-append_old s o [] v h = absurd (h refl)
prices-append_old s o (l ∷ ls) v h = elim (Bool-cases (before s o.price l.price)) [
  | inl e ↦
      let b : Before s o.price l.price = before→Before s o.price l.price e in
      absurd (
        h (
          rw
            (
              Before-ne s o.price l.price b,
              level_orders-After s o.price ls (After-trans s o.price l.price ls b v.1),
            )
            refl))
  | inr e ↦ rw e (elim (Bool-cases (l.price == o.price)) [
    | inl f ↦ rw f refl
    | inr f ↦ rw f (ap (λ ps. l.price ∷ ps) (prices-append_old s o ls v.2 (rw f at h)))
  ])
]
