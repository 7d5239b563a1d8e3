-- ===== src/Levels/Insert.antt =====
-- Pushing an order at the tail of its level.
use nano_exchange.Base.{
  ℕ, ◌≡◌, ◌≢◌, sym, subst, true, inl, inr, List, [], ◌∷◌, ◌++◌, ◌==◌, ==_iff, Bool-cases,
  All-append, All,
}
use nano_exchange.Types.{Side, MeOrder, PriceLevel}
use nano_exchange.Levels.{before, append_order, Before, OrderOk, LevelOk, SideOk}
use nano_exchange.Levels.Sorted.{After-trans, before→Before, Before-of_not}

append-ne-nil : (os : List MeOrder) (o : MeOrder) → os ++ o ∷ [] ≢ []
append-ne-nil [] o h = cc
append-ne-nil (x ∷ os) o h = cc

one_LevelOk :
    (s : Side) (o : MeOrder)
    → OrderOk s o.price o
    → LevelOk s (record { price = o.price; orders = o ∷ [] })
one_LevelOk s o ok = record { nonempty = λ h. cc; orders_ok = (ok, tt) }

-- The prices are those of before and the order's.
pub append_order-prices :
    (P : ℕ → Type 0) (s : Side) (o : MeOrder) (ls : List PriceLevel)
    → P o.price
    → All (λ l. P l.price) ls
    → All (λ l. P l.price) (append_order s o ls)
unfolding append_order
append_order-prices P s o [] h a = (h, tt)
append_order-prices P s o (l ∷ ls) h a = elim (Bool-cases (before s o.price l.price)) [
  | inl e ↦ rw e (h, a)
  | inr e ↦ rw e (elim (Bool-cases (l.price == o.price)) [
    | inl f ↦ rw f a
    | inr f ↦ rw f (a.0, append_order-prices P s o ls h a.1)
  ])
]

-- A side stays ordered when an order joins it.
pub append_order-SideOk :
    (s : Side) (o : MeOrder) (ls : List PriceLevel)
    → OrderOk s o.price o
    → SideOk s ls
    → SideOk s (append_order s o ls)
unfolding append_order
append_order-SideOk s o [] ok v = (one_LevelOk s o ok, tt, tt)
append_order-SideOk s o (l ∷ ls) ok v = elim (Bool-cases (before s o.price l.price)) [
  | inl e ↦
      let b : Before s o.price l.price = before→Before s o.price l.price e in
      rw e (one_LevelOk s o ok, (b, After-trans s o.price l.price ls b v.1), v)
  | inr e ↦ rw e (elim (Bool-cases (l.price == o.price)) [
    | inl f ↦ rw f (joined f, v.1, v.2)
    | inr f ↦ rw f (
      v.0,
      append_order-prices (Before s l.price) s o ls (Before-of_not s o.price l.price e f) v.1,
      append_order-SideOk s o ls ok v.2,
    )
  ])
]
  where
    joined : (l.price == o.price) ≡ true → LevelOk s (record l { orders = l.orders ++ o ∷ [] })
    joined f = record {
      nonempty = append-ne-nil l.orders o;
      orders_ok =
          All-append (OrderOk s l.price) l.orders (o ∷ []) v.0.orders_ok
            (subst (λ p. OrderOk s p o) (sym ((==_iff l.price o.price).0 f)) ok, tt);
    }
