-- ===== src/Market/Mirror/Updates.antt =====
-- What applyToBook of src/network/market/snapshot_stream.h makes of each update that a book of
-- src/engine/order_book/order_book_map.cpp pushes.
use nano_exchange.Base.{
  ℕ, ◌-◌, ◌≡◌, refl, sym, ap, ◌∙◌, subst, true, false, inl, inr, Option, none, some, leb, ◌==◌,
  ==_iff, if◌then◌else◌, Bool-cases, arith,
}
use nano_exchange.Types.{UpdateType, MeMarketUpdate, MeOrder}
use nano_exchange.MapBook.{Incoming, new_order, trade_update}
use nano_exchange.MapBook.Operations.{add_update, cancel_update, modify_update}
use nano_exchange.Market.Shadow.{Orders, find, apply_update, find-apply_as}
use nano_exchange.Market.Mirror.{as_known, as_order, as_update, Sets}

-- The order that an ADD announces.
pub add-Sets :
    (a : ℕ) (i : Incoming) (q : ℕ) (m : Orders)
    → Sets (new_order a i q) m (apply_update (add_update i q) m) (some (as_order (new_order a i q)))
unfolding apply_update
add-Sets a i q m j =
    ap as_known (find-apply_as UpdateType.add (add_update i q) j m)
    ∙ elim (Bool-cases (i.market_order_id == j)) [ inl e ↦ rw e refl | inr e ↦ rw e refl ]

-- The order that a CANCEL names.
pub cancel-Sets :
    (t q : ℕ) (o : MeOrder) (m : Orders)
    → Sets o m (apply_update (cancel_update t o.market_order_id o.side o.price q) m) none
unfolding apply_update
cancel-Sets t q o m j =
    ap as_known
      (find-apply_as UpdateType.cancel (cancel_update t o.market_order_id o.side o.price q) j m)
    ∙ elim (Bool-cases (o.market_order_id == j)) [ inl e ↦ rw e refl | inr e ↦ rw e refl ]

-- The order that a MODIFY replaces, and the one that it announces in its place.
pub modify-Sets :
    (a : ℕ) (i : Incoming) (o : MeOrder) (m : Orders)
    → (m' : Orders) × Sets o m m' none
      × Sets
          (new_order a i i.initial_quantity)
          m'
          (apply_update (modify_update i o.market_order_id) m)
          (some (as_order (new_order a i i.initial_quantity)))
unfolding apply_update
modify-Sets a i o m =
    let gone : MeMarketUpdate = cancel_update 0 o.market_order_id o.side o.price 0 in
    (
      apply_update gone m,
      cancel-Sets 0 0 o m,
      λ j.
          ap as_known (find-apply_as UpdateType.modify (modify_update i o.market_order_id) j m)
          ∙ elim (Bool-cases (i.market_order_id == j)) [
            | inl e ↦ rw e refl
            | inr e ↦ rw e (ap as_known (sym (find-apply_as UpdateType.cancel gone j m)))
          ],
    )

-- The resting order of a TRADE, which the map has.
module _ (i : Incoming) (id fill : ℕ) (o : MeOrder) (m : Orders) where
  abbrev left : ℕ
  left = o.remaining_quantity - fill

  abbrev Kept : Option MeMarketUpdate → Type 0
  Kept x =
      as_known (elim x [
        | none ↦ none
        | some w ↦ if leb w.qty fill then none else some (record w { qty = w.qty - fill })
      ])
      ≡ (if left == 0 then none else some (as_order (record o { remaining_quantity = left })))

  kept : (x : Option MeMarketUpdate) → as_known x ≡ some (as_order o) → Kept x
  kept none h = absurd (cc)
  kept (some w) h =
      let e : as_update w ≡ as_order o = cc in
      let q : w.qty ≡ o.remaining_quantity = ap (λ s. s.qty) e in
      let p : w.price ≡ o.price = ap (λ s. s.price) e in
      let d : w.side ≡ o.side = ap (λ s. s.side) e in
      elim (Bool-cases (left == 0)) [
        | inl z ↦ let f : leb w.qty fill ≡ true = ground arith in rw (z, f) refl
        | inr z ↦ let f : leb w.qty fill ≡ false = ground arith in rw (z, f, p, d, q) refl
      ]

  pub trade-Sets :
      as_known (find o.market_order_id m) ≡ some (as_order o)
      → Sets o m
          (apply_update (trade_update i id fill o) m)
          (if left == 0 then none else some (as_order (record o { remaining_quantity = left })))
  unfolding apply_update
  trade-Sets h j =
      ap as_known (find-apply_as UpdateType.trade (trade_update i id fill o) j m)
      ∙ elim (Bool-cases (o.market_order_id == j)) [
        | inl e ↦ rw e (
            kept (find j m) (
              subst (λ k. as_known (find k m) ≡ some (as_order o))
                ((==_iff o.market_order_id j).0 e) h))
        | inr e ↦ rw e refl
      ]
