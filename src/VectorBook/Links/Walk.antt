-- ===== src/VectorBook/Links/Walk.antt =====
-- The four writes that put a level behind another, and the walk that finds the other.
use nano_exchange.Base.{
  ℕ, zero, suc, ◌<◌, ◌≡◌, ◌≢◌, refl, sym, ap, ◌∙◌, subst, true, false, inl, inr, Option, none, some,
  List, [], ◌∷◌, All, All-map, All-zip, length, update_at, ◌==◌, ==_refl, if◌then◌else◌, Bool-cases,
  arith,
}
use nano_exchange.Types.{Side, buy, sell}
use nano_exchange.Levels.{before, Before}
use nano_exchange.VectorBook.Links.{
  LevelLinks, walk, set_prev, set_next, link_after, is_level, Absent, Ordered, Chain, Chain-frame,
  Same,
}

-- The prices with one more, in order.
abbrev pub insert_price : Side → ℕ → List ℕ → List ℕ
insert_price s p [] = p ∷ []
insert_price s p (y ∷ ys) = if before s p y then p ∷ y ∷ ys else y ∷ insert_price s p ys

pub next-set_prev : (a q : Option ℕ) (l : LevelLinks) → (set_prev a q l).next ≡ l.next
next-set_prev none q l = refl
next-set_prev (some p) q l = refl

pub prev-set_prev :
    (a q : Option ℕ) (l : LevelLinks) (x : ℕ)
    → (set_prev a q l).prev x ≡ (if is_level x a then q else l.prev x)
prev-set_prev none q l x = refl
prev-set_prev (some p) q l x = ground arith

pub ==_ne : (x y : ℕ) → x ≢ y → (x == y) ≡ false
==_ne x y h = ground arith

module _ (p c : ℕ) (l : LevelLinks) (ne : c ≢ p) where
  pub next-link_after :
      (x : ℕ)
      → (link_after p c l).next x
        ≡ (if x == c then some p else if x == p then l.next c else l.next x)
  unfolding link_after
  next-link_after x =
      let l1 : LevelLinks = set_next (some p) (l.next c) l in
      ap (λ (f : ℕ → Option ℕ). update_at c (some p) f x) (next-set_prev (l1.next c) (some p) l1)

  pub prev-link_after :
      (x : ℕ)
      → (link_after p c l).prev x
        ≡ (if x == p then some c else if is_level x (l.next c) then some p else l.prev x)
  unfolding link_after
  prev-link_after x =
      let e : update_at p (l.next c) l.next c ≡ l.next c = rw (==_ne c p ne) in
      let f : (set_prev (update_at p (l.next c) l.next c) (some p)
              (set_next (some p) (l.next c) l)).prev
            x
          ≡ (if is_level x (l.next c) then some p else l.prev x) =
        prev-set_prev (update_at p (l.next c) l.next c) (some p) (set_next (some p) (l.next c) l) x
        ∙ ap (λ a. if is_level x a then some p else l.prev x) e in
      ap (λ a. if x == p then some c else a) f

  -- No other level is written.
  pub link_after-Same :
      (x : ℕ) → x ≢ p → x ≢ c → is_level x (l.next c) ≡ false → Same l (link_after p c l) x
  link_after-Same x h k j =
      (next-link_after x ∙ rw (==_ne x c k, ==_ne x p h), prev-link_after x ∙ rw (==_ne x p h, j))

pub before_flip : (s : Side) (a b : ℕ) → before s a b ≡ true → before s b a ≡ false
before_flip buy a b h = ground arith
before_flip sell a b h = ground arith

pub before_other : (s : Side) (a b : ℕ) → before s a b ≡ false → a ≢ b → before s b a ≡ true
before_other buy a b h k = ground arith
before_other sell a b h k = ground arith

pub Before-ne' : (s : Side) (a b : ℕ) → Before s a b → a ≢ b
Before-ne' buy a b h = omega arith
Before-ne' sell a b h = omega arith

pub Before-Absent : (s : Side) (a : ℕ) (ps : List ℕ) → All (Before s a) ps → Absent a ps
Before-Absent s a ps h = All-map _ _ ps (λ b k. Before-ne' s a b k) h

module _ (s : Side) (p : ℕ) (l : LevelLinks) (q : Option ℕ) (c0 : ℕ) where
  -- At the end of the links.
  last_links :
      Absent p (c0 ∷ [])
      → Chain l q (some c0) (c0 ∷ [])
      → Chain (link_after p c0 l) q (some c0) (c0 ∷ p ∷ [])
        × ((x : ℕ) → x ≢ p → Absent x (c0 ∷ []) → Same l (link_after p c0 l) x)
  last_links a c =
      let ne : c0 ≢ p = λ e. a.0 (sym e) in
      let end : l.next c0 ≡ none = c.2 in
      (
        (
          refl,
          prev-link_after p c0 l ne c0 ∙ rw (==_ne c0 p ne, end) c.1,
          (
            next-link_after p c0 l ne c0 ∙ rw (==_refl c0),
            prev-link_after p c0 l ne p ∙ rw (==_refl p),
            next-link_after p c0 l ne p ∙ rw (==_ne p c0 a.0, ==_refl p) end,
          ),
        ),
        λ x h k. link_after-Same p c0 l ne x h k.0 (rw end),
      )

  -- Between two levels.
  between_links :
      (y : ℕ) (ps : List ℕ)
      → Absent p (c0 ∷ y ∷ ps)
      → Ordered s (c0 ∷ y ∷ ps)
      → Chain l q (some c0) (c0 ∷ y ∷ ps)
      → Chain (link_after p c0 l) q (some c0) (c0 ∷ p ∷ y ∷ ps)
        × ((x : ℕ) → x ≢ p → Absent x (c0 ∷ y ∷ ps) → Same l (link_after p c0 l) x)
  between_links y ps a o c =
      let ne : c0 ≢ p = λ e. a.0 (sym e) in
      let ne_y : y ≢ p = λ e. a.1.0 (sym e) in
      let after : c0 ≢ y = Before-ne' s c0 y o.0.0 in
      let l' : LevelLinks = link_after p c0 l in
      let y_next : l'.next y ≡ l.next y =
        next-link_after p c0 l ne y ∙ rw (==_ne y c0 (λ e. after (sym e)), ==_ne y p ne_y) in
      let rest : All (Same l l') ps =
        All-map _ _ ps
          (λ x (h : ((p ≢ x) × Before s c0 x) × Before s y x).
            link_after-Same p c0 l ne x (λ e. h.0.0 (sym e)) (λ e. Before-ne' s c0 x h.0.1 (sym e))
              (rw (c.2.0) (==_ne y x (Before-ne' s y x h.1))))
          (All-zip _ _ ps (All-zip _ _ ps a.1.1 o.0.1) o.1.0) in
      (
        (
          refl,
          prev-link_after p c0 l ne c0
              ∙ rw (==_ne c0 p ne, c.2.0) (rw (==_ne y c0 (λ e. after (sym e))) c.1),
          (
            next-link_after p c0 l ne c0 ∙ rw (==_refl c0),
            prev-link_after p c0 l ne p ∙ rw (==_refl p),
            (
              next-link_after p c0 l ne p ∙ rw (==_ne p c0 a.0, ==_refl p) c.2.0,
              prev-link_after p c0 l ne y ∙ rw (==_ne y p ne_y, c.2.0) (rw (==_refl y)),
              Chain-frame l l' (some y) (l'.next y) ps rest
                  (subst (λ x. Chain l (some y) x ps) (sym y_next) c.2.2),
            ),
          ),
        ),
        λ x h k. link_after-Same p c0 l ne x h k.0 (rw (c.2.0) (==_ne y x (λ e. k.1.0 (sym e)))),
      )

-- The walk from a level ends, and the links behind the level that it finds run through the prices
-- with one more.
module _ (s : Side) (p : ℕ) where
  pub walk_links :
      (n : ℕ) (l : LevelLinks) (q : Option ℕ) (c0 : ℕ) (ps : List ℕ)
      → length ps < n
      → Absent p (c0 ∷ ps)
      → Ordered s (c0 ∷ ps)
      → Chain l q (some c0) (c0 ∷ ps)
      → (c : ℕ) × (walk n s p l.next c0 ≡ some c)
        × Chain (link_after p c l) q (some c0) (c0 ∷ insert_price s p ps)
        × ((x : ℕ) → x ≢ p → Absent x (c0 ∷ ps) → Same l (link_after p c l) x)
  unfolding walk
  walk_links zero l q c0 ps h a o c = absurd (omega arith)
  walk_links (suc n) l q c0 [] h a o c =
      let (chain, frame) = last_links s p l q c0 a c in (c0, rw (c.2, walk), chain, frame)
  walk_links (suc n) l q c0 (y ∷ ps) h a o c = elim (Bool-cases (before s y p)) [
    | inl b ↦
        let (c', run, chain, frame) =
          walk_links n l (some c0) y ps (omega arith) a.1 o.1 (refl, c.2.1, c.2.2) in
        let (next_same, prev_same) =
          frame c0 (λ e. a.0 (sym e)) (Before-Absent s c0 (y ∷ ps) o.0) in
        (
          c',
          rw (c.2.0, walk) (rw b run),
          rw (before_flip s y p b) (
            refl,
            prev_same ∙ c.1,
            subst (λ x. Chain (link_after p c' l) (some c0) x (y ∷ insert_price s p ps))
                (sym (next_same ∙ c.2.0)) chain,
          ),
          λ x h k. frame x h k.1,
        )
    | inr b ↦
        let (chain, frame) = between_links s p l q c0 y ps a o c in
        (
          c0,
          rw (c.2.0, walk) (rw b refl),
          rw (before_other s y p b (λ e. a.1.0 (sym e))) chain,
          frame,
        )
  ]
