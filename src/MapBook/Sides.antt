-- ===== src/MapBook/Sides.antt =====
-- What the writes of the book do to each side.
use nano_exchange.Base.{
  ℕ, ◌-◌, ◌≡◌, refl, ap, ◌∙◌, inl, inr, Option, List, ◌∷◌, min, ◌==◌, if◌then◌else◌, Bool-cases,
}
use nano_exchange.Types.{Side, buy, sell, MeOrder, PriceLevel}
use nano_exchange.Levels.{remove_order, write_remaining, append_order, keep_level}
use nano_exchange.Levels.Remove.{remove-write, write_first, remove_first}
use nano_exchange.MapBook.{
  MeOrderBook, Incoming, Matching, opposite, levels, with_levels, new_order, insert, remove,
  set_remaining, fill_head,
}

pub levels-with_levels :
    (s t : Side) (b : MeOrderBook) (ls : List PriceLevel)
    → t ≡ s
    → levels s (with_levels t b ls) ≡ ls
levels-with_levels buy buy b ls e = refl
levels-with_levels buy sell b ls e = cc
levels-with_levels sell buy b ls e = cc
levels-with_levels sell sell b ls e = refl

pub levels-with_levels_other :
    (s t : Side) (b : MeOrderBook) (ls : List PriceLevel)
    → t ≡ opposite s
    → levels s (with_levels t b ls) ≡ levels s b
levels-with_levels_other buy buy b ls e = cc
levels-with_levels_other buy sell b ls e = refl
levels-with_levels_other sell buy b ls e = refl
levels-with_levels_other sell sell b ls e = cc

pub levels-index :
    (s : Side) (b : MeOrderBook) (f : ℕ → ℕ → Option ℕ)
    → levels s (record b { orders = f }) ≡ levels s b
levels-index buy b f = refl
levels-index sell b f = refl

pub levels_cong : (s t : Side) (b : MeOrderBook) → t ≡ s → levels t b ≡ levels s b
levels_cong s t b e = ap (λ x. levels x b) e

module _ (s : Side) (o : MeOrder) (b : MeOrderBook) (e : o.side ≡ s) where
  pub levels-remove : levels s (remove o b) ≡ remove_order o.price o.address (levels s b)
  unfolding remove
  levels-remove =
      levels-index s _ _
      ∙ levels-with_levels s o.side b _ e
      ∙ ap (remove_order o.price o.address) (levels_cong s o.side b e)

  pub levels-set_remaining :
      (q : ℕ) → levels s (set_remaining o q b) ≡ write_remaining o.price o.address q (levels s b)
  unfolding set_remaining
  levels-set_remaining q =
      levels-with_levels s o.side b _ e
      ∙ ap (write_remaining o.price o.address q) (levels_cong s o.side b e)

module _ (s : Side) (o : MeOrder) (b : MeOrderBook) (e : o.side ≡ opposite s) where
  pub levels-remove_other : levels s (remove o b) ≡ levels s b
  unfolding remove
  levels-remove_other = levels-index s _ _ ∙ levels-with_levels_other s o.side b _ e

  pub levels-set_remaining_other : (q : ℕ) → levels s (set_remaining o q b) ≡ levels s b
  unfolding set_remaining
  levels-set_remaining_other q = levels-with_levels_other s o.side b _ e

module _ (s : Side) (a : ℕ) (i : Incoming) (q : ℕ) (b : MeOrderBook) where
  pub levels-insert :
      i.side ≡ s → levels s (insert a i q b) ≡ append_order s (new_order a i q) (levels s b)
  unfolding insert
  levels-insert e =
      levels-index s _ _
      ∙ levels-with_levels s i.side b _ e
      ∙ ap (λ x. append_order x (new_order a i q) (levels x b)) e

  pub levels-insert_other : i.side ≡ opposite s → levels s (insert a i q b) ≡ levels s b
  unfolding insert
  levels-insert_other e = levels-index s _ _ ∙ levels-with_levels_other s i.side b _ e

-- What a fill leaves of the order.
abbrev pub left_of : MeOrder → Matching → ℕ
left_of o m = o.remaining_quantity - min m.remaining o.remaining_quantity

-- The levels after a fill of the order at the head of the first level.
abbrev pub filled : ℕ → MeOrder → List MeOrder → List PriceLevel → ℕ → List PriceLevel
filled p o os ls left =
    if left == 0
    then keep_level p os ls
    else record { price = p; orders = record o { remaining_quantity = left } ∷ os } ∷ ls

module _ (i : Incoming) (p : ℕ) (o : MeOrder) (m : Matching) where
  pub fill_other :
      (s : Side) → o.side ≡ opposite s → levels s (fill_head i p o m).book ≡ levels s m.book
  unfolding fill_head
  fill_other s e = elim (Bool-cases (left_of o m == 0)) [
    | inl z ↦ rw z (
        levels-remove_other s o (set_remaining o (left_of o m) m.book) e
        ∙ levels-set_remaining_other s o m.book e (left_of o m))
    | inr z ↦ rw z (levels-set_remaining_other s o m.book e (left_of o m))
  ]

  pub fill_levels :
      (s : Side) (os : List MeOrder) (ls : List PriceLevel)
      → o.side ≡ s
      → o.price ≡ p
      → levels s m.book ≡ record { price = p; orders = o ∷ os } ∷ ls
      → levels s (fill_head i p o m).book ≡ filled p o os ls (left_of o m)
  unfolding fill_head
  fill_levels s os ls e f h = elim (Bool-cases (left_of o m == 0)) [
    | inl z ↦ rw z (
        levels-remove s o (set_remaining o (left_of o m) m.book) e
        ∙ ap (remove_order o.price o.address) (levels-set_remaining s o m.book e (left_of o m))
        ∙ remove-write o.price o.address (left_of o m) (levels s m.book)
        ∙ ap (λ x. remove_order x o.address (levels s m.book)) f
        ∙ ap (remove_order p o.address) h
        ∙ remove_first p o os ls)
    | inr z ↦ rw z (
        levels-set_remaining s o m.book e (left_of o m)
        ∙ ap (λ x. write_remaining x o.address (left_of o m) (levels s m.book)) f
        ∙ ap (write_remaining p o.address (left_of o m)) h
        ∙ write_first p (left_of o m) o os ls)
  ]
