-- ===== src/Levels/Splice.antt =====
-- An order among others: where it stands matters neither to what is found at another address nor to
-- whether the addresses are distinct.
use nano_exchange.Base.{
  ℕ, ◌≡◌, ◌≢◌, refl, sym, subst, false, inl, inr, some, List, [], ◌∷◌, ◌++◌, All, ◌==◌, ==_refl,
  Bool-cases, arith,
}
use nano_exchange.Types.{Side, MeOrder, PriceLevel}
use nano_exchange.Levels.{
  before, append_order, unlink, keep_level, remove_order, write_orders, write_remaining, resting,
  find_order,
}
use nano_exchange.Levels.Remove.{level_orders}

-- `xs` are `ys` with the order somewhere among them.
pub data Splice (o : MeOrder) : List MeOrder → List MeOrder → Type 0 where
  here : (xs : List MeOrder) → Splice o (o ∷ xs) xs
  there : (x : MeOrder) (xs ys : List MeOrder) → Splice o xs ys → Splice o (x ∷ xs) (x ∷ ys)

-- No two orders have one key.
abbrev pub DistinctBy : (MeOrder → ℕ) → List MeOrder → Type 0
DistinctBy key [] = Unit {0}
DistinctBy key (o ∷ os) = All (λ x. key x ≢ key o) os × DistinctBy key os

abbrev pub address_of : MeOrder → ℕ
address_of o = o.address

-- No two orders have one address.
abbrev pub Distinct : List MeOrder → Type 0
Distinct = DistinctBy address_of

pub Splice-append :
    (o : MeOrder) (xs ys zs : List MeOrder) → Splice o xs ys → Splice o (xs ++ zs) (ys ++ zs)
Splice-append o _ _ zs (here xs) = here (xs ++ zs)
Splice-append o _ _ zs (there x xs ys s) =
    there x (xs ++ zs) (ys ++ zs) (Splice-append o xs ys zs s)

pub Splice-behind :
    (o : MeOrder) (zs xs ys : List MeOrder) → Splice o xs ys → Splice o (zs ++ xs) (zs ++ ys)
Splice-behind o [] xs ys s = s
Splice-behind o (z ∷ zs) xs ys s = there z (zs ++ xs) (zs ++ ys) (Splice-behind o zs xs ys s)

pub Splice-All {ℓ} :
    (P : MeOrder → Type ℓ) (o : MeOrder) (xs ys : List MeOrder)
    → Splice o xs ys
    → P o
    → All P ys
    → All P xs
Splice-All P o _ _ (here xs) p h = (p, h)
Splice-All P o _ _ (there x xs ys s) p h = (h.0, Splice-All P o xs ys s p h.1)

pub All-Splice {ℓ} :
    (P : MeOrder → Type ℓ) (o : MeOrder) (xs ys : List MeOrder)
    → Splice o xs ys
    → All P xs
    → P o × All P ys
All-Splice P o _ _ (here xs) h = h
All-Splice P o _ _ (there x xs ys s) h = let (p, k) = All-Splice P o xs ys s h.1 in (p, (h.0, k))

pub Splice-Distinct :
    (key : MeOrder → ℕ) (o : MeOrder) (xs ys : List MeOrder)
    → Splice o xs ys
    → All (λ x. key x ≢ key o) ys
    → DistinctBy key ys
    → DistinctBy key xs
Splice-Distinct key o _ _ (here xs) a d = (a, d)
Splice-Distinct key o _ _ (there x xs ys s) a d = (
  Splice-All (λ y. key y ≢ key x) o xs ys s (λ e. a.0 (sym e)) d.0,
  Splice-Distinct key o xs ys s a.1 d.1,
)

pub Distinct-Splice :
    (key : MeOrder → ℕ) (o : MeOrder) (xs ys : List MeOrder)
    → Splice o xs ys
    → DistinctBy key xs
    → All (λ x. key x ≢ key o) ys × DistinctBy key ys
Distinct-Splice key o _ _ (here xs) d = d
Distinct-Splice key o _ _ (there x xs ys s) d =
    let (p, k) = All-Splice (λ y. key y ≢ key x) o xs ys s d.0 in
    let (a, e) = Distinct-Splice key o xs ys s d.1 in ((λ f. p (sym f), a), (k, e))

pub find_order-Splice :
    (o : MeOrder) (xs ys : List MeOrder)
    → Splice o xs ys
    → Distinct xs
    → find_order o.address xs ≡ some o
unfolding find_order
find_order-Splice o _ _ (here xs) d = rw (==_refl o.address) refl
find_order-Splice o _ _ (there x xs ys s) d =
    let (p, _) = All-Splice (λ y. y.address ≢ x.address) o xs ys s d.0 in
    let e : (x.address == o.address) ≡ false = ground (arith, p) in
    rw e (find_order-Splice o xs ys s d.1)

pub find_order-Splice_other :
    (a : ℕ) (o : MeOrder) (xs ys : List MeOrder)
    → Splice o xs ys
    → (o.address == a) ≡ false
    → find_order a xs ≡ find_order a ys
unfolding find_order
find_order-Splice_other a o _ _ (here xs) h = rw h refl
find_order-Splice_other a o _ _ (there x xs ys s) h = elim (Bool-cases (x.address == a)) [
  | inl e ↦ rw e refl
  | inr e ↦ rw e (find_order-Splice_other a o xs ys s h)
]

-- What the writes of a side do.

append_one : (o : MeOrder) (os : List MeOrder) → Splice o (os ++ o ∷ []) os
append_one o [] = here []
append_one o (x ∷ os) = there x (os ++ o ∷ []) os (append_one o os)

pub append_order-Splice :
    (s : Side) (o : MeOrder) (ls : List PriceLevel)
    → Splice o (resting (append_order s o ls)) (resting ls)
unfolding append_order
append_order-Splice s o [] = here []
append_order-Splice s o (l ∷ ls) = elim (Bool-cases (before s o.price l.price)) [
  | inl e ↦ rw e (here (l.orders ++ resting ls))
  | inr e ↦ rw e (elim (Bool-cases (l.price == o.price)) [
    | inl f ↦
        rw f (Splice-append o (l.orders ++ o ∷ []) l.orders (resting ls) (append_one o l.orders))
    | inr f ↦ rw f (Splice-behind o l.orders _ (resting ls) (append_order-Splice s o ls))
  ])
]

unlink-Splice :
    (a : ℕ) (o : MeOrder) (os : List MeOrder) → find_order a os ≡ some o → Splice o os (unlink a os)
unfolding unlink find_order
unlink-Splice a o [] h = cc
unlink-Splice a o (x ∷ os) h = elim (Bool-cases (x.address == a)) [
  | inl e ↦
      let k : some x ≡ some o = rw e at h in
      let f : x ≡ o = cc in rw e (subst (λ y. Splice y (x ∷ os) os) f (here os))
  | inr e ↦ rw e (there x os (unlink a os) (unlink-Splice a o os (rw e at h)))
]

write-Splice :
    (a q : ℕ) (o : MeOrder) (os : List MeOrder)
    → find_order a os ≡ some o
    → Splice (record o { remaining_quantity = q }) (write_orders a q os) (unlink a os)
unfolding unlink find_order write_orders
write-Splice a q o [] h = cc
write-Splice a q o (x ∷ os) h = elim (Bool-cases (x.address == a)) [
  | inl e ↦
      let k : some x ≡ some o = rw e at h in
      let f : x ≡ o = cc in
      rw e (
        subst
          (λ y.
            Splice (record y { remaining_quantity = q }) (record x { remaining_quantity = q } ∷ os)
              os)
          f (here os))
  | inr e ↦ rw e (there x (write_orders a q os) (unlink a os) (write-Splice a q o os (rw e at h)))
]

resting-keep :
    (p : ℕ) (os : List MeOrder) (ls : List PriceLevel)
    → resting (keep_level p os ls) ≡ os ++ resting ls
resting-keep p [] ls = refl
resting-keep p (o ∷ os) ls = refl

module _ (p a : ℕ) (o : MeOrder) where
  pub remove_order-Splice :
      (ls : List PriceLevel)
      → find_order a (level_orders p ls) ≡ some o
      → Splice o (resting ls) (resting (remove_order p a ls))
  unfolding remove_order
  remove_order-Splice [] h = absurd (unfold find_order in cc h)
  remove_order-Splice (l ∷ ls) h = elim (Bool-cases (l.price == p)) [
    | inl e ↦ rw e (
        rw (resting-keep l.price (unlink a l.orders) ls) (
          Splice-append o l.orders (unlink a l.orders) (resting ls)
            (unlink-Splice a o l.orders (rw e at h))))
    | inr e ↦ rw e (Splice-behind o l.orders (resting ls) _ (remove_order-Splice ls (rw e at h)))
  ]

  pub write_remaining-Splice :
      (q : ℕ) (ls : List PriceLevel)
      → find_order a (level_orders p ls) ≡ some o
      → Splice
          (record o { remaining_quantity = q })
          (resting (write_remaining p a q ls))
          (resting (remove_order p a ls))
  unfolding remove_order write_remaining
  write_remaining-Splice q [] h = absurd (unfold find_order in cc h)
  write_remaining-Splice q (l ∷ ls) h = elim (Bool-cases (l.price == p)) [
    | inl e ↦ rw e (
        rw (resting-keep l.price (unlink a l.orders) ls) (
          Splice-append _ (write_orders a q l.orders) (unlink a l.orders) (resting ls)
            (write-Splice a q o l.orders (rw e at h))))
    | inr e ↦ rw e (Splice-behind _ l.orders _ _ (write_remaining-Splice q ls (rw e at h)))
  ]
