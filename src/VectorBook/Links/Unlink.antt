-- ===== src/VectorBook/Links/Unlink.antt =====
-- The links without a level run through the other prices.
use nano_exchange.Base.{
  ℕ, ◌≡◌, ◌≢◌, refl, sym, ◌∙◌, subst, true, false, inl, inr, Option, none, some, List, [], ◌∷◌, All,
  All-map, All-zip, ◌==◌, ==_iff, ==_refl, Bool-cases,
}
use nano_exchange.Types.{Side}
use nano_exchange.Levels.{Before}
use nano_exchange.VectorBook.Links.{
  LevelLinks, remove_price_level, is_level, Absent, Ordered, Chain, Chain-frame, IsLinked, Same,
}
use nano_exchange.VectorBook.Links.Walk.{==_ne, Before-ne', Before-Absent}
use nano_exchange.VectorBook.Links.Remove.{
  remove_price, member, next-remove, prev-remove, best-remove,
}

-- A pointer to none of the prices outside a list.
abbrev Inside : List ℕ → Option ℕ → Type 0
Inside ps a = (x : ℕ) → Absent x ps → is_level x a ≡ false

-- What the links of an active level point to, from the level before the list on.
module _ (s : Side) (p : ℕ) (l : LevelLinks) where
  next_stays : (zs : List ℕ) → Chain l (some p) (l.next p) zs → Inside zs (l.next p)
  next_stays [] c x h = rw c
  next_stays (z ∷ zs) c x h = rw (c.0) (==_ne z x (λ e. h.0 (sym e)))

  neighbours :
      (y : ℕ) (ys : List ℕ) (q : Option ℕ)
      → (y == p) ≡ false
      → member p ys ≡ true
      → Ordered s (y ∷ ys)
      → Chain l q (some y) (y ∷ ys)
      → Inside (y ∷ ys) (l.prev p)
        × Inside (y ∷ ys) (l.next p)
        × (is_level p (l.prev p) ≡ false)
        × (is_level p (l.next p) ≡ false)
  neighbours y [] q ne m o c = absurd (let k : false ≡ true = m in cc)
  neighbours y (z ∷ zs) q ne m o c = elim (Bool-cases (z == p)) [
    | inl e ↦
        let f : z ≡ p = (==_iff z p).0 e in
        let back : l.prev p ≡ some y = subst (λ t. l.prev t ≡ some y) f c.2.1 in
        let on : Chain l (some p) (l.next p) zs =
          subst (λ t. Chain l (some t) (l.next t) zs) f c.2.2 in
        let away : Absent p zs = subst (λ t. Absent t zs) f (Before-Absent s z zs o.1.0) in
        (
          λ x h. rw back (==_ne y x (λ k. h.0 (sym k))),
          λ x h. next_stays zs on x h.1.1,
          rw back ne,
          next_stays zs on p away,
        )
    | inr e ↦
        let (a, b, i, j) = neighbours z zs (some y) e (rw e at m) o.1 (refl, c.2.1, c.2.2) in
        (λ x h. a x h.1, λ x h. b x h.1, i, j)
  ]

  module _ (apart_next : is_level p (l.next p) ≡ false)
      (apart_prev : is_level p (l.prev p) ≡ false) where
    abbrev l' : LevelLinks
    l' = remove_price_level p l

    -- A level that is neither the removed one nor its neighbour keeps its links.
    kept :
        (x : ℕ)
        → x ≢ p
        → is_level x (l.prev p) ≡ false
        → is_level x (l.next p) ≡ false
        → Same l l' x
    kept x h j k = (
      next-remove p l apart_next apart_prev x ∙ rw (==_ne x p h, j),
      prev-remove p l apart_next apart_prev x ∙ rw (==_ne x p h, k),
    )

    -- Behind the removed level.
    after_removed :
        (q : Option ℕ) (zs : List ℕ)
        → l.prev p ≡ q
        → All (λ x. is_level x q ≡ false) zs
        → Ordered s (p ∷ zs)
        → Chain l (some p) (l.next p) zs
        → Chain l' q (l.next p) zs
    after_removed q [] back out o c = c
    after_removed q (z ∷ zs) back out o c =
        let ne : z ≢ p = λ e. Before-ne' s p z o.0.0 (sym e) in
        let z_next : l'.next z ≡ l.next z =
          next-remove p l apart_next apart_prev z ∙ rw (==_ne z p ne, back) (rw (out.0)) in
        let rest : All (Same l l') zs =
          All-map _ _ zs
            (λ x (h : ((is_level x q ≡ false) × Before s p x) × Before s z x).
              kept x (λ e. Before-ne' s p x h.0.1 (sym e)) (rw back h.0.0)
                (rw (c.0) (==_ne z x (Before-ne' s z x h.1))))
            (All-zip _ _ zs (All-zip _ _ zs out.1 o.0.1) o.1.0) in
        (
          c.0,
          prev-remove p l apart_next apart_prev z ∙ rw (==_ne z p ne, c.0) (rw (==_refl z) back),
          Chain-frame l l' (some z) (l'.next z) zs rest
              (subst (λ x. Chain l (some z) x zs) (sym z_next) c.2),
        )

    removed :
        (y : ℕ) (ys : List ℕ) (q : Option ℕ)
        → (y == p) ≡ false
        → member p ys ≡ true
        → Ordered s (y ∷ ys)
        → Chain l q (some y) (y ∷ ys)
        → Chain l' q (some y) (y ∷ remove_price p ys)
    removed y [] q ne m o c = absurd (let k : false ≡ true = m in cc)
    removed y (z ∷ zs) q ne m o c = elim (Bool-cases (z == p)) [
      | inl e ↦
          let f : z ≡ p = (==_iff z p).0 e in
          let o' : Ordered s (y ∷ p ∷ zs) = subst (λ t. Ordered s (y ∷ t ∷ zs)) f o in
          let c' : Chain l q (some y) (y ∷ p ∷ zs) =
            subst (λ t. Chain l q (some y) (y ∷ t ∷ zs)) f c in
          let y_next : l'.next y ≡ l.next p =
            next-remove p l apart_next apart_prev y ∙ rw (ne, c'.2.1) (rw (==_refl y)) in
          let far : is_level y (l.next p) ≡ false =
            next_stays zs c'.2.2 y (Before-Absent s y zs o'.0.1) in
          let out : All (λ x. is_level x (some y) ≡ false) zs =
            All-map _ _ zs (λ x (h : Before s y x). ==_ne y x (Before-ne' s y x h)) o'.0.1 in
          rw e (
            refl,
            prev-remove p l apart_next apart_prev y ∙ rw (ne, far) c.1,
            subst (λ x. Chain l' (some y) x zs) (sym y_next)
                (after_removed (some y) zs c'.2.1 out o'.1 c'.2.2),
          )
      | inr e ↦
          let m' : member p zs ≡ true = rw e at m in
          let (back, on, i, j) = neighbours z zs (some y) e m' o.1 (refl, c.2.1, c.2.2) in
          let away : Absent y (z ∷ zs) = Before-Absent s y (z ∷ zs) o.0 in
          let ne' : y ≢ p = λ k. let b : true ≡ false = sym ((==_iff y p).1 k) ∙ ne in cc in
          let (n, v) = kept y ne' (back y away) (on y away) in
          rw e (
            refl,
            v ∙ c.1,
            subst (λ x. Chain l' (some y) x (z ∷ remove_price p zs)) (sym (n ∙ c.2.0))
                (removed z zs (some y) e m' o.1 (refl, c.2.1, c.2.2)),
          )
    ]

remove_price-All {ℓ} :
    (P : ℕ → Type ℓ) (p : ℕ) (ps : List ℕ) → P p → All P (remove_price p ps) → All P ps
remove_price-All P p [] h k = tt
remove_price-All P p (y ∷ ys) h k = elim (Bool-cases (y == p)) [
  | inl e ↦ (subst P (sym ((==_iff y p).0 e)) h, rw e at k)
  | inr e ↦
      let r : P y × All P (remove_price p ys) = rw e at k in (r.0, remove_price-All P p ys h r.1)
]

-- An active level that leaves is out of the active levels, and the links run through the others.
pub remove_price_level-IsLinked :
    (s : Side) (p : ℕ) (l : LevelLinks) (ps : List ℕ)
    → IsLinked ps l
    → Ordered s ps
    → member p ps ≡ true
    → IsLinked (remove_price p ps) (remove_price_level p l)
remove_price_level-IsLinked s p l [] v o m = absurd (let k : false ≡ true = m in cc)
remove_price_level-IsLinked s p l (y ∷ ys) v o m = elim (Bool-cases (y == p)) [
  | inl e ↦
      let f : y ≡ p = (==_iff y p).0 e in
      let o' : Ordered s (p ∷ ys) = subst (λ t. Ordered s (t ∷ ys)) f o in
      let c : Chain l none l.best (p ∷ ys) = subst (λ t. Chain l none l.best (t ∷ ys)) f v.chain in
      let away : Absent p ys = Before-Absent s p ys o'.0 in
      let i : is_level p (l.next p) ≡ false = next_stays s p l ys c.2 p away in
      let j : is_level p (l.prev p) ≡ false = rw (c.1) in
      let out : All (λ x. is_level x none ≡ false) ys =
        All-map _ _ ys (λ x (h : Before s p x). refl) o'.0 in
      rw e (record {
        chain =
            subst (λ x. Chain (remove_price_level p l) none x ys)
              (sym (best-remove p l i j ∙ rw (c.0) (rw (==_refl p))))
              (after_removed s p l i j none ys c.1 out o' c.2);
        unlinked = λ x h. elim (Bool-cases (x == p)) [
          | inl g ↦ (next-remove p l i j x ∙ rw g, prev-remove p l i j x ∙ rw g)
          | inr g ↦
              let ne : x ≢ y = λ k. let b : true ≡ false = sym ((==_iff x p).1 (k ∙ f)) ∙ g in cc in
              let (n, b) = v.unlinked x (ne, h) in
              (
                next-remove p l i j x ∙ rw (g, c.1) n,
                prev-remove p l i j x ∙ rw (g, next_stays s p l ys c.2 x h) b,
              )
        ];
      })
  | inr e ↦
      let m' : member p ys ≡ true = rw e at m in
      let c : Chain l none (some y) (y ∷ ys) = (refl, v.chain.1, v.chain.2) in
      let (back, on, j, i) = neighbours s p l y ys none e m' o c in
      rw e (record {
        chain =
            subst (λ x. Chain (remove_price_level p l) none x (y ∷ remove_price p ys))
              (sym (best-remove p l i j ∙ rw (v.chain.0) (rw e)))
              (removed s p l i j y ys none e m' o c);
        unlinked = λ x h. elim (Bool-cases (x == p)) [
          | inl g ↦ (next-remove p l i j x ∙ rw g, prev-remove p l i j x ∙ rw g)
          | inr g ↦
              let ne : x ≢ p = λ k. let b : true ≡ false = sym ((==_iff x p).1 k) ∙ g in cc in
              let absent : Absent x (y ∷ ys) = (h.0, remove_price-All (λ z. x ≢ z) p ys ne h.1) in
              let (n, b) = v.unlinked x absent in
              let (n', b') = kept s p l i j x ne (back x absent) (on x absent) in (n' ∙ n, b' ∙ b)
        ];
      })
]
