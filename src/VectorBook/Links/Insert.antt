-- ===== src/VectorBook/Links/Insert.antt =====
-- A level that joins the active levels.
use nano_exchange.Base.{
  ℕ, ◌≤◌, ◌≡◌, ◌≢◌, refl, sym, ap, ◌∙◌, subst, inl, inr, Option, none, some, List, [], ◌∷◌, All,
  All-map, All-zip, length, update_at, ==_refl, Bool-cases, arith,
}
use nano_exchange.Types.{Side}
use nano_exchange.Levels.{before, Before}
use nano_exchange.VectorBook.Links.{
  LevelLinks, set_prev, set_next, link_after, link_first, insert_price_level,
  insert_before_or_after, Absent, Ordered, Chain, Chain-frame, IsLinked, Same,
}
use nano_exchange.VectorBook.Links.Walk.{==_ne, Before-ne', insert_price, walk_links}

pub best-set_prev : (a q : Option ℕ) (l : LevelLinks) → (set_prev a q l).best ≡ l.best
best-set_prev none q l = refl
best-set_prev (some p) q l = refl

best-link_after : (p c : ℕ) (l : LevelLinks) → (link_after p c l).best ≡ l.best
unfolding link_after
best-link_after p c l =
    best-set_prev (update_at p (l.next c) l.next c) (some p) (set_next (some p) (l.next c) l)

-- The prices of before and the new one.
pub insert_price-All {ℓ} :
    (P : ℕ → Type ℓ) (s : Side) (p : ℕ) (ps : List ℕ) → All P (insert_price s p ps) → P p × All P ps
insert_price-All P s p [] h = h
insert_price-All P s p (y ∷ ys) h = elim (Bool-cases (before s p y)) [
  | inl b ↦ rw b at h
  | inr b ↦
      let k : P y × All P (insert_price s p ys) = rw b at h in
      let (x, r) = insert_price-All P s p ys k.1 in (x, (k.0, r))
]

module _ (s : Side) (p : ℕ) (l : LevelLinks) where
  first_links :
      (y : ℕ) (ps : List ℕ)
      → IsLinked (y ∷ ps) l
      → Ordered s (y ∷ ps)
      → Absent p (y ∷ ps)
      → IsLinked (p ∷ y ∷ ps) (link_first p y l)
  unfolding link_first
  first_links y ps v o a =
      let l' : LevelLinks = link_first p y l in
      let ne : y ≢ p = λ e. a.0 (sym e) in
      let y_next : l'.next y ≡ l.next y = rw (==_ne y p ne) in
      let rest : All (Same l l') ps =
        All-map _ _ ps
          (λ x (h : (p ≢ x) × Before s y x).
            (rw (==_ne x p (λ e. h.0 (sym e))), rw (==_ne x y (λ e. Before-ne' s y x h.1 (sym e)))))
          (All-zip _ _ ps a.1 o.0) in
      record {
        chain = (
          refl,
          rw (==_ne p y a.0) (v.unlinked p a).1,
          (
            rw (==_refl p),
            rw (==_refl y),
            Chain-frame l l' (some y) (l'.next y) ps rest
                (subst (λ x. Chain l (some y) x ps) (sym y_next) v.chain.2),
          ),
        );
        unlinked = λ x h.
            (rw (==_ne x p h.0) (v.unlinked x h.1).0, rw (==_ne x y h.1.0) (v.unlinked x h.1).1);
      }

  -- A level that joins the active levels stands at its place among them: the links run through the
  -- prices with one more.
  pub insert_price_level-IsLinked :
      (fuel : ℕ) (ps : List ℕ)
      → IsLinked ps l
      → Ordered s ps
      → Absent p ps
      → length ps ≤ fuel
      → (l' : LevelLinks) × (insert_price_level fuel s p l ≡ some l')
        × IsLinked (insert_price s p ps) l'
  unfolding insert_price_level insert_before_or_after
  insert_price_level-IsLinked fuel [] v o a h =
      let e : l.best ≡ none = v.chain in
      (
        record l { best = some p },
        ap (insert_before_or_after fuel s p l) e,
        record {
          chain = (refl, (v.unlinked p tt).1, (v.unlinked p tt).0);
          unlinked = λ x k. v.unlinked x tt;
        },
      )
  insert_price_level-IsLinked fuel (y ∷ ps) v o a h = elim (Bool-cases (before s p y)) [
    | inl b ↦ (
      link_first p y l,
      ap (insert_before_or_after fuel s p l) v.chain.0 ∙ rw (b, insert_before_or_after) refl,
      rw b (first_links y ps v o a),
    )
    | inr b ↦
        let (c, run, chain, frame) =
          walk_links s p fuel l none y ps (omega arith) a o (refl, v.chain.1, v.chain.2) in
        (
          link_after p c l,
          ap (insert_before_or_after fuel s p l) v.chain.0
              ∙ rw (b, insert_before_or_after) (rw run refl),
          rw b (record {
            chain =
                subst (λ x. Chain (link_after p c l) none x (y ∷ insert_price s p ps))
                  (sym (best-link_after p c l ∙ v.chain.0)) chain;
            unlinked = λ x k.
                let (ne, rest) = insert_price-All (λ z. x ≢ z) s p ps k.1 in
                let (n, m) = frame x ne (k.0, rest) in
                let (n', m') = v.unlinked x (k.0, rest) in (n ∙ n', m ∙ m');
          }),
        )
  ]
