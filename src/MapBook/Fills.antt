-- ===== src/MapBook/Fills.antt =====
-- The fills of one `match` as steps of a relation, and what every sequence of fills keeps.
use nano_exchange.Base.{
  All, ℕ, ◌<◌, ◌≤◌, ◌≡◌, refl, sym, ◌∙◌, subst, false, inl, inr, List, ◌∷◌, arith, ◌==◌, Bool-cases,
}
use nano_exchange.Types.{Side, MeOrder, PriceLevel}
use nano_exchange.Levels.{OrderOk, SideOk}
use nano_exchange.Levels.Remove.{keep_level-SideOk, keep_level-prices}
use nano_exchange.MapBook.{Incoming, Matching, opposite, levels, fill_head, breaks}
use nano_exchange.MapBook.Sides.{left_of, filled, fill_levels, fill_other}

-- The order at the head of the best opposite level can be filled.
pub record CanFill (i : Incoming) (m : Matching) (p : ℕ) (o : MeOrder) (os : List MeOrder)
    (ls : List PriceLevel) : Type 0 where
  pub best : levels (opposite i.side) m.book ≡ record { price = p; orders = o ∷ os } ∷ ls
  pub wanted : 0 < m.remaining
  pub reached : breaks i.side i.price p ≡ false
  pub ok : SideOk (opposite i.side) (record { price = p; orders = o ∷ os } ∷ ls)

-- One fill after the other, from `m` to `m'`.
pub data Fills (i : Incoming) (m' : Matching) : Matching → Type 0 where
  stop : Fills i m' m'
  more :
      {m : Matching} (p : ℕ) (o : MeOrder) (os : List MeOrder) (ls : List PriceLevel)
      → CanFill i m p o os ls
      → Fills i m' (fill_head i p o m)
      → Fills i m' m

pub Fills-trans : (i : Incoming) (b c a : Matching) → Fills i b a → Fills i c b → Fills i c a
Fills-trans i b c a stop g = g
Fills-trans i b c a (more p o os ls k f) g = more p o os ls k (Fills-trans i b c _ f g)

-- What a fill leaves of the order may rest on.
pub left-OrderOk :
    (s : Side) (p : ℕ) (o : MeOrder) (m : Matching)
    → OrderOk s p o
    → (left_of o m == 0) ≡ false
    → OrderOk s p (record o { remaining_quantity = left_of o m })
left-OrderOk s p o m v z = record {
  at_price = v.at_price;
  on_side = v.on_side;
  live = ground arith;
  within = let h : o.remaining_quantity ≤ o.initial_quantity = v.within in ground arith;
}

pub filled-SideOk :
    (s : Side) (p : ℕ) (o : MeOrder) (os : List MeOrder) (ls : List PriceLevel) (m : Matching)
    → SideOk s (record { price = p; orders = o ∷ os } ∷ ls)
    → SideOk s (filled p o os ls (left_of o m))
filled-SideOk s p o os ls m v = elim (Bool-cases (left_of o m == 0)) [
  | inl z ↦ rw z (keep_level-SideOk s p os ls v.0.orders_ok.1 v.1 v.2)
  | inr z ↦ rw z (
    record {
      nonempty = λ e. cc;
      orders_ok = (left-OrderOk s p o m v.0.orders_ok.0 z, v.0.orders_ok.1);
    },
    v.1,
    v.2,
  )
]

filled-prices :
    (P : ℕ → Type 0) (p : ℕ) (o : MeOrder) (os : List MeOrder) (ls : List PriceLevel) (left : ℕ)
    → P p
    → All (λ l. P l.price) ls
    → All (λ l. P l.price) (filled p o os ls left)
filled-prices P p o os ls left h k = elim (Bool-cases (left == 0)) [
  | inl z ↦ rw z (keep_level-prices P p os ls h k)
  | inr z ↦ rw z (h, k)
]

module _ (i : Incoming) (m : Matching) (p : ℕ) (o : MeOrder) (os : List MeOrder)
    (ls : List PriceLevel) (k : CanFill i m p o os ls) where
  pub CanFill-OrderOk : OrderOk (opposite i.side) p o
  CanFill-OrderOk = k.ok.0.orders_ok.0

  pub CanFill-levels :
      levels (opposite i.side) (fill_head i p o m).book ≡ filled p o os ls (left_of o m)
  CanFill-levels =
      fill_levels i p o m (opposite i.side) os ls CanFill-OrderOk.on_side CanFill-OrderOk.at_price
        k.best

  pub CanFill-own : levels i.side (fill_head i p o m).book ≡ levels i.side m.book
  CanFill-own = fill_other i p o m i.side CanFill-OrderOk.on_side

-- The opposite side stays ordered.
pub Fills-SideOk :
    (i : Incoming) (m' m : Matching)
    → Fills i m' m
    → SideOk (opposite i.side) (levels (opposite i.side) m.book)
    → SideOk (opposite i.side) (levels (opposite i.side) m'.book)
Fills-SideOk i m' m stop v = v
Fills-SideOk i m' m (more p o os ls k f) v = Fills-SideOk i m' (fill_head i p o m) f (
    subst (SideOk (opposite i.side)) (sym (CanFill-levels i m p o os ls k))
      (filled-SideOk (opposite i.side) p o os ls m k.ok))

-- No opposite price is new.
pub Fills-prices :
    (P : ℕ → Type 0) (i : Incoming) (m' m : Matching)
    → Fills i m' m
    → All (λ l. P l.price) (levels (opposite i.side) m.book)
    → All (λ l. P l.price) (levels (opposite i.side) m'.book)
Fills-prices P i m' m stop v = v
Fills-prices P i m' m (more p o os ls k f) v =
    let Prices : List PriceLevel → Type 0 = All (λ l. P l.price) in
    let h : Prices (record { price = p; orders = o ∷ os } ∷ ls) = subst Prices k.best v in
    Fills-prices P i m' (fill_head i p o m) f (
      subst Prices (sym (CanFill-levels i m p o os ls k))
        (filled-prices P p o os ls (left_of o m) h.0 h.1))

-- The own side is left alone.
pub Fills-own :
    (i : Incoming) (m' m : Matching) → Fills i m' m → levels i.side m'.book ≡ levels i.side m.book
Fills-own i m' m stop = refl
Fills-own i m' m (more p o os ls k f) =
    Fills-own i m' (fill_head i p o m) f ∙ CanFill-own i m p o os ls k
