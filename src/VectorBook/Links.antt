-- ===== src/VectorBook/Links.antt =====
-- insertPricelevel and removePriceLevel of src/engine/order_book/order_book_vector.cpp: the active
-- levels of a side, linked through the array of all levels. A pointer to a level is its price,
-- which is its index in the array; `none` is nullptr.
pub mod Walk
pub mod Insert
pub mod Remove
pub mod Unlink
use nano_exchange.Base.{
  Bool, true, false, sym, subst, ◌∙◌, ℕ, zero, suc, ◌≡◌, ◌≢◌, Option, none, some, List, [], ◌∷◌,
  All, update_at, ◌==◌, if◌then◌else◌, ◌>>=◌,
}
use nano_exchange.Types.{Side}
use nano_exchange.Levels.{before, Before}

-- `next_` and `prev_` of the levels of a side, and `best_bid_` or `best_ask_`.
pub record LevelLinks : Type 0 where
  pub next : ℕ → Option ℕ
  pub prev : ℕ → Option ℕ
  pub best : Option ℕ

abbrev pub no_links : LevelLinks
no_links = record { next = λ p. none; prev = λ p. none; best = none }

-- `while (curr->next_ && ...) curr = curr->next_`, on fuel; `before` is the comparison of the side.
unfoldable pub walk : ℕ → Side → ℕ → (ℕ → Option ℕ) → ℕ → Option ℕ
walk zero s p next curr = none
walk (suc n) s p next curr = elim (next curr) [
  | none ↦ some curr
  | some q ↦ elim (before s q p) [ true ↦ walk n s p next q | false ↦ some curr ]
]

-- `if (l) l->prev_ = q`.
abbrev pub set_prev : Option ℕ → Option ℕ → LevelLinks → LevelLinks
set_prev none q l = l
set_prev (some p) q l = record l { prev = update_at p q l.prev }

-- `if (l) l->next_ = q`.
abbrev pub set_next : Option ℕ → Option ℕ → LevelLinks → LevelLinks
set_next none q l = l
set_next (some p) q l = record l { next = update_at p q l.next }

-- The four writes that put a level behind `curr`.
unfoldable pub link_after : ℕ → ℕ → LevelLinks → LevelLinks
link_after p curr l =
    let l1 : LevelLinks = set_next (some p) (l.next curr) l in
    let l2 : LevelLinks = set_prev (l1.next curr) (some p) l1 in
    let l3 : LevelLinks = set_next (some curr) (some p) l2 in set_prev (some p) (some curr) l3

-- The two writes that put a level before the best one, and the new best.
unfoldable pub link_first : ℕ → ℕ → LevelLinks → LevelLinks
link_first p best l =
    let l1 : LevelLinks = set_next (some p) (some best) l in
    let l2 : LevelLinks = set_prev (some best) (some p) l1 in record l2 { best = some p }

-- By what the best level is.
unfoldable pub insert_before_or_after : ℕ → Side → ℕ → LevelLinks → Option ℕ → Option LevelLinks
insert_before_or_after fuel s p l none = some (record l { best = some p })
insert_before_or_after fuel s p l (some best) = elim (before s p best) [
  | true ↦ some (link_first p best l)
  | false ↦ walk fuel s p l.next best >>= λ curr. some (link_after p curr l)
]

unfoldable pub insert_price_level : ℕ → Side → ℕ → LevelLinks → Option LevelLinks
insert_price_level fuel s p l = insert_before_or_after fuel s p l l.best

-- `best == level`.
abbrev pub is_level : ℕ → Option ℕ → Bool
is_level p none = false
is_level p (some q) = q == p

unfoldable pub remove_price_level : ℕ → LevelLinks → LevelLinks
remove_price_level p l =
    let l1 : LevelLinks = set_prev (l.next p) (l.prev p) l in
    let l2 : LevelLinks = set_next (l1.prev p) (l1.next p) l1 in
    let l3 : LevelLinks = if is_level p l2.best then record l2 { best = l2.next p } else l2 in
    set_prev (some p) none (set_next (some p) none l3)

-- `x` is none of the prices.
abbrev pub Absent : ℕ → List ℕ → Type 0
Absent x = All (λ y. x ≢ y)

-- Strictly ordered, best first.
abbrev pub Ordered : Side → List ℕ → Type 0
Ordered s [] = Unit {0}
Ordered s (p ∷ ps) = All (Before s p) ps × Ordered s ps

-- From `start`, whose level before is `q`, the links run through the prices and end.
abbrev pub Chain : LevelLinks → Option ℕ → Option ℕ → List ℕ → Type 0
Chain l q start [] = start ≡ none
Chain l q start (p ∷ ps) = (start ≡ some p) × (l.prev p ≡ q) × Chain l (some p) (l.next p) ps

-- The active levels are those of the prices, and no other level has a link.
pub record IsLinked (ps : List ℕ) (l : LevelLinks) : Type 0 where
  pub chain : Chain l none l.best ps
  pub unlinked : (x : ℕ) → Absent x ps → (l.next x ≡ none) × (l.prev x ≡ none)

-- The links of two states agree at a level.
abbrev pub Same : LevelLinks → LevelLinks → ℕ → Type 0
Same l l' x = (l'.next x ≡ l.next x) × (l'.prev x ≡ l.prev x)

pub Chain-frame :
    (l l' : LevelLinks) (q start : Option ℕ) (ps : List ℕ)
    → All (Same l l') ps
    → Chain l q start ps
    → Chain l' q start ps
Chain-frame l l' q start [] h c = c
Chain-frame l l' q start (p ∷ ps) h c = (
  c.0,
  h.0.1 ∙ c.1,
  Chain-frame l l' (some p) (l'.next p) ps h.1 (subst (λ x. Chain l (some p) x ps) (sym h.0.0) c.2),
)
