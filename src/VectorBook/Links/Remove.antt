-- ===== src/VectorBook/Links/Remove.antt =====
-- A level that leaves the active levels.
use nano_exchange.Base.{
  ℕ, ◌≡◌, refl, ap, ◌∙◌, Bool, true, false, Option, none, some, List, [], ◌∷◌, update_at, ◌==◌,
  if◌then◌else◌, arith,
}
use nano_exchange.VectorBook.Links.{LevelLinks, set_prev, set_next, remove_price_level, is_level}
use nano_exchange.VectorBook.Links.Walk.{next-set_prev, prev-set_prev}
use nano_exchange.VectorBook.Links.Insert.{best-set_prev}

abbrev pub remove_price : ℕ → List ℕ → List ℕ
remove_price p [] = []
remove_price p (y ∷ ys) = if y == p then ys else y ∷ remove_price p ys

abbrev pub member : ℕ → List ℕ → Bool
member p [] = false
member p (y ∷ ys) = if y == p then true else member p ys

next-set_next :
    (a q : Option ℕ) (l : LevelLinks) (x : ℕ)
    → (set_next a q l).next x ≡ (if is_level x a then q else l.next x)
next-set_next none q l x = refl
next-set_next (some p) q l x = ground arith

prev-set_next : (a q : Option ℕ) (l : LevelLinks) → (set_next a q l).prev ≡ l.prev
prev-set_next none q l = refl
prev-set_next (some p) q l = refl

best-set_next : (a q : Option ℕ) (l : LevelLinks) → (set_next a q l).best ≡ l.best
best-set_next none q l = refl
best-set_next (some p) q l = refl

-- Only the new best is written.
take_best : Bool → LevelLinks → Option ℕ → LevelLinks
take_best b l q = if b then record l { best = q } else l

next-take_best : (b : Bool) (l : LevelLinks) (q : Option ℕ) → (take_best b l q).next ≡ l.next
unfolding take_best
next-take_best true l q = refl
next-take_best false l q = refl

prev-take_best : (b : Bool) (l : LevelLinks) (q : Option ℕ) → (take_best b l q).prev ≡ l.prev
unfolding take_best
prev-take_best true l q = refl
prev-take_best false l q = refl

best-take_best :
    (b : Bool) (l : LevelLinks) (q : Option ℕ) → (take_best b l q).best ≡ (if b then q else l.best)
unfolding take_best
best-take_best true l q = refl
best-take_best false l q = refl

-- What the removal leaves at each level, where the level is not its own neighbour.
module _ (p : ℕ) (l : LevelLinks) (apart_next : is_level p (l.next p) ≡ false)
    (apart_prev : is_level p (l.prev p) ≡ false) where
  l1 : LevelLinks
  l1 = set_prev (l.next p) (l.prev p) l

  l2 : LevelLinks
  unfolding l1
  l2 = set_next (l1.prev p) (l1.next p) l1

  l1_prev : l1.prev p ≡ l.prev p
  unfolding l1
  l1_prev = prev-set_prev (l.next p) (l.prev p) l p ∙ rw apart_next

  l1_next : l1.next ≡ l.next
  unfolding l1
  l1_next = next-set_prev (l.next p) (l.prev p) l

  l2_next : (x : ℕ) → l2.next x ≡ (if is_level x (l.prev p) then l.next p else l.next x)
  unfolding l2
  l2_next x =
      next-set_next (l1.prev p) (l1.next p) l1 x
      ∙ ap (λ a. if is_level x a then l1.next p else l1.next x) l1_prev
      ∙ ap (λ f. if is_level x (l.prev p) then f p else f x) l1_next

  l2_prev : (x : ℕ) → l2.prev x ≡ (if is_level x (l.next p) then l.prev p else l.prev x)
  unfolding l2 l1
  l2_prev x =
      ap (λ f. f x) (prev-set_next (l1.prev p) (l1.next p) l1)
      ∙ prev-set_prev (l.next p) (l.prev p) l x

  l2_best : l2.best ≡ l.best
  unfolding l2 l1
  l2_best = best-set_next (l1.prev p) (l1.next p) l1 ∙ best-set_prev (l.next p) (l.prev p) l

  pub next-remove :
      (x : ℕ)
      → (remove_price_level p l).next x
        ≡ (if x == p then none else if is_level x (l.prev p) then l.next p else l.next x)
  unfolding remove_price_level l1 l2 take_best
  next-remove x =
      ap (λ f. update_at p none f x) (next-take_best (is_level p l2.best) l2 (l2.next p))
      ∙ ap (λ a. if x == p then none else a) (l2_next x)

  pub prev-remove :
      (x : ℕ)
      → (remove_price_level p l).prev x
        ≡ (if x == p then none else if is_level x (l.next p) then l.prev p else l.prev x)
  unfolding remove_price_level l1 l2 take_best
  prev-remove x =
      ap (λ f. update_at p none f x) (prev-take_best (is_level p l2.best) l2 (l2.next p))
      ∙ ap (λ a. if x == p then none else a) (l2_prev x)

  pub best-remove : (remove_price_level p l).best ≡ (if is_level p l.best then l.next p else l.best)
  unfolding remove_price_level l1 l2 take_best
  best-remove =
      best-take_best (is_level p l2.best) l2 (l2.next p)
      ∙ ap (λ a. if is_level p a then l2.next p else a) l2_best
      ∙ ap (λ a. if is_level p l.best then a else l.best) (l2_next p ∙ rw apart_prev)
