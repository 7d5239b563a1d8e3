-- ===== src/Levels/Remove.antt =====
-- Unlinking an order, and writing its remaining quantity.
use nano_exchange.Base.{
  ℕ, ◌≤◌, ◌<◌, ◌≡◌, ◌≢◌, refl, ap, inl, inr, none, some, List, [], ◌∷◌, ◌==◌, ==_refl,
  if◌then◌else◌, Bool-cases, All,
}
use nano_exchange.Types.{Side, MeOrder, PriceLevel}
use nano_exchange.Levels.{
  level_head, unlink, keep_level, remove_order, write_orders, write_remaining, find_order, Before,
  After, OrderOk, SideOk,
}
use nano_exchange.Levels.Sorted.{Before-ne}

-- Removal.

unlink-All {ℓ} : (P : MeOrder → Type ℓ) (a : ℕ) (os : List MeOrder) → All P os → All P (unlink a os)
unfolding unlink
unlink-All P a [] h = tt
unlink-All P a (o ∷ os) h = elim (Bool-cases (o.address == a)) [
  | inl e ↦ rw e h.1
  | inr e ↦ rw e (h.0, unlink-All P a os h.1)
]

pub keep_level-prices :
    (P : ℕ → Type 0) (p : ℕ) (os : List MeOrder) (ls : List PriceLevel)
    → P p
    → All (λ l. P l.price) ls
    → All (λ l. P l.price) (keep_level p os ls)
keep_level-prices P p [] ls b h = h
keep_level-prices P p (o ∷ os) ls b h = (b, h)

pub keep_level-SideOk :
    (s : Side) (p : ℕ) (os : List MeOrder) (ls : List PriceLevel)
    → All (OrderOk s p) os
    → After s p ls
    → SideOk s ls
    → SideOk s (keep_level p os ls)
keep_level-SideOk s p [] ls ok h v = v
keep_level-SideOk s p (o ∷ os) ls ok h v = (record { nonempty = λ e. cc; orders_ok = ok }, h, v)

-- No price is new.
pub remove_order-prices :
    (P : ℕ → Type 0) (p a : ℕ) (ls : List PriceLevel)
    → All (λ l. P l.price) ls
    → All (λ l. P l.price) (remove_order p a ls)
unfolding remove_order
remove_order-prices P p a [] h = tt
remove_order-prices P p a (l ∷ ls) h = elim (Bool-cases (l.price == p)) [
  | inl e ↦ rw e (keep_level-prices P l.price (unlink a l.orders) ls h.0 h.1)
  | inr e ↦ rw e (h.0, remove_order-prices P p a ls h.1)
]

-- A side stays ordered, with no empty level, when an order leaves it.
pub remove_order-SideOk :
    (s : Side) (p a : ℕ) (ls : List PriceLevel) → SideOk s ls → SideOk s (remove_order p a ls)
unfolding remove_order
remove_order-SideOk s p a [] v = tt
remove_order-SideOk s p a (l ∷ ls) v = elim (Bool-cases (l.price == p)) [
  | inl e ↦ rw e (
      keep_level-SideOk s l.price (unlink a l.orders) ls
        (unlink-All (OrderOk s l.price) a l.orders v.0.orders_ok) v.1 v.2)
  | inr e ↦
      rw e
        (v.0, remove_order-prices (Before s l.price) p a ls v.1, remove_order-SideOk s p a ls v.2)
]

-- Writes.

write_orders-ne-nil : (a q : ℕ) (os : List MeOrder) → os ≢ [] → write_orders a q os ≢ []
unfolding write_orders
write_orders-ne-nil a q [] h = h
write_orders-ne-nil a q (o ∷ os) h = elim (Bool-cases (o.address == a)) [
  | inl e ↦ rw e (λ k. cc)
  | inr e ↦ rw e (λ k. cc)
]

write_orders-ok :
    (s : Side) (p a q : ℕ) (os : List MeOrder)
    → ((o : MeOrder) → find_order a os ≡ some o → (0 < q) × (q ≤ o.initial_quantity))
    → All (OrderOk s p) os
    → All (OrderOk s p) (write_orders a q os)
unfolding write_orders find_order
write_orders-ok s p a q [] h v = tt
write_orders-ok s p a q (o ∷ os) h v = elim (Bool-cases (o.address == a)) [
  | inl e ↦ rw e (written (h o (rw e)), v.1)
  | inr e ↦ rw e (v.0, write_orders-ok s p a q os (λ x k. h x (rw e k)) v.1)
]
  where
    written : (0 < q) × (q ≤ o.initial_quantity) → OrderOk s p (record o { remaining_quantity = q })
    written k = record { at_price = v.0.at_price; on_side = v.0.on_side; live = k.0; within = k.1 }

pub write_remaining-prices :
    (P : ℕ → Type 0) (p a q : ℕ) (ls : List PriceLevel)
    → All (λ l. P l.price) ls
    → All (λ l. P l.price) (write_remaining p a q ls)
unfolding write_remaining
write_remaining-prices P p a q [] h = tt
write_remaining-prices P p a q (l ∷ ls) h = elim (Bool-cases (l.price == p)) [
  | inl e ↦ rw e h
  | inr e ↦ rw e (h.0, write_remaining-prices P p a q ls h.1)
]

-- The level of the price holds the order, where `find_order` finds one of that price.
abbrev pub level_orders : ℕ → List PriceLevel → List MeOrder
level_orders p [] = []
level_orders p (l ∷ ls) = if l.price == p then l.orders else level_orders p ls

pub write_remaining-SideOk :
    (s : Side) (p a q : ℕ) (ls : List PriceLevel)
    → ((o : MeOrder)
        → find_order a (level_orders p ls) ≡ some o
        → (0 < q) × (q ≤ o.initial_quantity))
    → SideOk s ls
    → SideOk s (write_remaining p a q ls)
unfolding write_remaining
write_remaining-SideOk s p a q [] h v = tt
write_remaining-SideOk s p a q (l ∷ ls) h v = elim (Bool-cases (l.price == p)) [
  | inl e ↦ rw e (
    record {
      nonempty = write_orders-ne-nil a q l.orders v.0.nonempty;
      orders_ok = write_orders-ok s l.price a q l.orders (λ o k. h o (rw e k)) v.0.orders_ok;
    },
    v.1,
    v.2,
  )
  | inr e ↦ rw e (
    v.0,
    write_remaining-prices (Before s l.price) p a q ls v.1,
    write_remaining-SideOk s p a q ls (λ o k. h o (rw e k)) v.2,
  )
]

-- A write is forgotten where the order is removed after it.
pub unlink-write : (a q : ℕ) (os : List MeOrder) → unlink a (write_orders a q os) ≡ unlink a os
unfolding unlink write_orders
unlink-write a q [] = refl
unlink-write a q (o ∷ os) = elim (Bool-cases (o.address == a)) [
  | inl e ↦ rw e (rw e)
  | inr e ↦ rw e (rw e (ap (λ xs. o ∷ xs) (unlink-write a q os)))
]

pub remove-write :
    (p a q : ℕ) (ls : List PriceLevel)
    → remove_order p a (write_remaining p a q ls) ≡ remove_order p a ls
unfolding remove_order write_remaining
remove-write p a q [] = refl
remove-write p a q (l ∷ ls) = elim (Bool-cases (l.price == p)) [
  | inl e ↦ rw e (rw e (ap (λ os. keep_level l.price os ls) (unlink-write a q l.orders)))
  | inr e ↦ rw e (rw e (ap (λ xs. l ∷ xs) (remove-write p a q ls)))
]

-- At the head of the first level.

pub level_head_first :
    (p : ℕ) (o : MeOrder) (os : List MeOrder) (ls : List PriceLevel)
    → level_head p (record { price = p; orders = o ∷ os } ∷ ls) ≡ some o
unfolding level_head
level_head_first p o os ls = rw (==_refl p)

pub write_first :
    (p q : ℕ) (o : MeOrder) (os : List MeOrder) (ls : List PriceLevel)
    → write_remaining p o.address q (record { price = p; orders = o ∷ os } ∷ ls)
      ≡ record { price = p; orders = record o { remaining_quantity = q } ∷ os } ∷ ls
unfolding write_remaining write_orders
write_first p q o os ls = rw (==_refl p, ==_refl o.address)

pub remove_first :
    (p : ℕ) (o : MeOrder) (os : List MeOrder) (ls : List PriceLevel)
    → remove_order p o.address (record { price = p; orders = o ∷ os } ∷ ls) ≡ keep_level p os ls
unfolding remove_order unlink
remove_first p o os ls = rw (==_refl p, ==_refl o.address)

-- A price before all levels has none of them.
pub level_head-none :
    (s : Side) (p : ℕ) (ls : List PriceLevel) → After s p ls → level_head p ls ≡ none
unfolding level_head
level_head-none s p [] h = refl
level_head-none s p (l ∷ ls) h = rw (Before-ne s p l.price h.0) (level_head-none s p ls h.1)
