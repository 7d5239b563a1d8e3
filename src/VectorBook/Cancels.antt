-- ===== src/VectorBook/Cancels.antt =====
-- cancelOrder over vectors follows cancelOrder over std::map.
use nano_exchange.Base.{
  ℕ, ◌-◌, ◌≡◌, ◌≢◌, refl, ap, ap₂, ◌∙◌, subst, false, inl, inr, Option, none, some, [], ◌++◌, map,
  ltb, ◌==◌, Bool-cases, if◌then◌else◌, arith,
}
use nano_exchange.Types.{OrderToken, MeOrder, Event, response, update}
use nano_exchange.Levels.{find_order, OrderOk}
use nano_exchange.Levels.Remove.{level_orders}
use nano_exchange.MapBook
use nano_exchange.MapBook.Operations.{canceled_qty, not_found}
use nano_exchange.MapBook.Operations as MapOperations
use nano_exchange.MapBook.Invariant.{deref_level}
use nano_exchange.VectorBook
use nano_exchange.VectorBook.Operations as VectorOperations
use nano_exchange.VectorBook.Refines.{BookRefines, side-refines, lower-refines}
use nano_exchange.VectorBook.Resting.{resting-refines}

-- The event, without the quantity that a response says is left.
abbrev pub without_leaves : Event → Event
without_leaves (response r) = response (record r { leaves_qty = 0 })
without_leaves (update u) = update u

-- The two calls leave the same, but the responses may tell another quantity that is left.
pub record CancelRefines (vr : VectorOperations.Outcome) (r : MapOperations.Outcome) : Type 0 where
  pub books : BookRefines vr.book r.book
  pub same_match_id : vr.next_match_id ≡ r.next_match_id
  pub same_events : map without_leaves vr.events ≡ map without_leaves r.events

-- A pointer points to the same order in both books.
pub deref-refines :
    (a : ℕ) (vb : VectorBook.MeOrderBook) (b : MapBook.MeOrderBook)
    → BookRefines vb b
    → VectorOperations.deref a vb ≡ MapOperations.deref a b
unfolding VectorOperations.deref MapOperations.deref
deref-refines a vb b r =
    ap₂ (λ xs ys. find_order a (xs ++ ys)) (resting-refines _ _ _ r.bids_refine)
      (resting-refines _ _ _ r.asks_refine)

-- The level of an order that is pointed to has orders.
pub found_level :
    (a : ℕ) (vb : VectorBook.MeOrderBook) (b : MapBook.MeOrderBook) (o : MeOrder)
    → BookRefines vb b
    → MapOperations.deref a b ≡ some o
    → (o.address ≡ a)
      × OrderOk o.side o.price o
      × (find_order a (level_orders o.price (MapBook.levels o.side b)) ≡ some o)
      × (level_orders o.price (MapBook.levels o.side b) ≢ [])
found_level a vb b o r h =
    let (at, ok, found) = deref_level a b o (λ s. (side-refines s vb b r).ok) h in
    (
      at,
      ok,
      found,
      λ e. let none_found : none ≡ some o = unfold find_order in (rw e at found) in cc,
    )

module _ (t c k qty : ℕ) (o : MeOrder) (nmid a : ℕ) (vb : VectorBook.MeOrderBook)
    (b : MapBook.MeOrderBook) (r : BookRefines vb b) (h : MapOperations.deref a b ≡ some o) where
  cancel_book :
      ltb o.remaining_quantity (canceled_qty qty o) ≡ false
      → let left : ℕ = o.remaining_quantity - canceled_qty qty o in
        BookRefines
          (if left == 0
            then VectorBook.remove o (VectorBook.set_remaining o left vb)
            else VectorBook.set_remaining o left vb)
          (if left == 0
            then MapBook.remove o (MapBook.set_remaining o left b)
            else MapBook.set_remaining o left b)
  cancel_book e =
      let (at, ok, found, level) = found_level a vb b o r h in
      lower-refines o vb b r (o.remaining_quantity - canceled_qty qty o)
        (ap (λ y. find_order y (level_orders o.price (MapBook.levels o.side b))) at ∙ found)
        ok.within (omega arith)

  cancel_found-refines :
      CancelRefines
        (VectorOperations.cancel_found t c k qty o nmid vb)
        (MapOperations.cancel_found t c k qty o nmid b)
  unfolding VectorOperations.cancel_found MapOperations.cancel_found
  cancel_found-refines = elim (Bool-cases (ltb o.remaining_quantity (canceled_qty qty o))) [
    | inl e ↦ rw e (record { books = r; same_match_id = refl; same_events = refl })
    | inr e ↦ rw e (record { books = cancel_book e; same_match_id = refl; same_events = refl })
  ]

-- cancelOrder over vectors, where cancelOrder over std::map returns and the one book represents the
-- other, returns too; the books it leaves represent each other, and the pushes are the same but for
-- the quantity that a response says is left.
pub cancel_order-refines :
    (t c k qty : ℕ) (tok : OrderToken) (nmid : ℕ) (vb : VectorBook.MeOrderBook)
    (b : MapBook.MeOrderBook) (r : MapOperations.Outcome)
    → BookRefines vb b
    → MapOperations.cancel_order t c k qty tok nmid b ≡ some r
    → (vr : VectorOperations.Outcome) × (VectorOperations.cancel_order t c k qty tok nmid vb
        ≡ some vr)
      × CancelRefines vr r
unfolding VectorOperations.cancel_order MapOperations.cancel_order
cancel_order-refines t c k qty tok nmid vb b r refines h = go (b.orders c k) refl
  where
    same : (x : Option ℕ) → b.orders c k ≡ x → vb.orders c k ≡ x
    same x e = ap (λ f. f c k) refines.same_index ∙ e

    Result : Type 0
    Result =
        (vr : VectorOperations.Outcome) × (VectorOperations.cancel_order t c k qty tok nmid vb
          ≡ some vr)
        × CancelRefines vr r

    found :
        (a : ℕ) (x : Option MeOrder) → b.orders c k ≡ some a → MapOperations.deref a b ≡ x → Result
    found a none e f =
        let g : none ≡ some r = rw f at (rw (e, MapOperations.cancel_order) at h) in cc
    found a (some o) e f =
        let g : some (MapOperations.cancel_found t c k qty o nmid b) ≡ some r =
          rw f at (rw (e, MapOperations.cancel_order) at h) in
        let g' : MapOperations.cancel_found t c k qty o nmid b ≡ r = cc in
        rw (same (some a) e, VectorOperations.cancel_order)
          (
            VectorOperations.cancel_found t c k qty o nmid vb,
            rw (deref-refines a vb b refines ∙ f) refl,
            subst (CancelRefines _) g' (cancel_found-refines t c k qty o nmid a vb b refines f),
          )

    go : (x : Option ℕ) → b.orders c k ≡ x → Result
    go none e =
        let k' : some (MapOperations.reject (not_found t c k tok) nmid b) ≡ some r =
          rw (e, MapOperations.cancel_order) at h in
        let f : MapOperations.reject (not_found t c k tok) nmid b ≡ r = cc in
        rw (same none e, VectorOperations.cancel_order)
          (
            VectorOperations.reject (not_found t c k tok) nmid vb,
            refl,
            subst (CancelRefines _) f
                (record { books = refines; same_match_id = refl; same_events = refl }),
          )
    go (some a) e = found a (MapOperations.deref a b) e refl
