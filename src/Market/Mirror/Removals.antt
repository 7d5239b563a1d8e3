-- ===== src/Market/Mirror/Removals.antt =====
-- cancelOrder and replaceOrder of src/engine/order_book/order_book_map.cpp and the shadow book of
-- src/network/market/snapshot_stream.h after what they push.
use nano_exchange.Base.{
  ℕ, ◌+◌, ◌-◌, ◌^◌, ◌<◌, ◌≤◌, ◌≡◌, ◌⊎◌, refl, sym, ap, ◌∙◌, subst, true, false, inl, inr, some, [],
  ◌∷◌, ◌++◌, ltb, ◌==◌, Bool-cases, arith,
}
use nano_exchange.Types.{ResponseType, order_id_invalid, MeOrder, response, update}
use nano_exchange.Levels.{After, find_order}
use nano_exchange.Levels.Remove.{level_orders}
use nano_exchange.MapBook.{
  MeOrderBook, Incoming, Matching, opposite, levels, insert, remove, own_response, new_order,
}
use nano_exchange.MapBook.Operations.{
  Outcome, bump, cancel_update, modify_update, rest_or_kill_replaced, replace_outcome,
  replace_found, cancel_found, canceled_qty,
}
use nano_exchange.MapBook.Fills.{Fills, stop, more}
use nano_exchange.MapBook.Loop.{started, match_order_total}
use nano_exchange.MapBook.Priority.{Before→breaks}
use nano_exchange.MapBook.Valid.{IsValid, valid_from, remove-IsValid}
use nano_exchange.MapBook.Invariant.{bump-IsValid, levels-bump}
use nano_exchange.MapBook.Index.{
  Found, book_orders, insert-Splice, remove-Splice, remove-set_remaining,
}
use nano_exchange.Market.Shadow.{Orders, apply_update}
use nano_exchange.Market.Mirror.{
  Mirrors, Mirrors-next, below_ne, follow, leaves-Mirrors, joins-Mirrors,
}
use nano_exchange.Market.Mirror.Updates.{cancel-Sets, modify-Sets}
use nano_exchange.Market.Mirror.Trades.{insert-next, remove-next}
use nano_exchange.Market.Mirror.Additions.{MirrorsBook, bumped}

-- A cancel of all shares, or of more than there are.
module _ (t c k qty : ℕ) (o : MeOrder) (nmid : ℕ) (b : MeOrderBook) (m : Orders) where
  pub cancel_found-Mirrors :
      (qty ≡ 0) ⊎ (o.remaining_quantity ≤ qty)
      → Found o b
      → MirrorsBook b m
      → MirrorsBook
          (cancel_found t c k qty o nmid b).book
          (follow (cancel_found t c k qty o nmid b).events m)
  unfolding cancel_found follow
  cancel_found-Mirrors whole h v =
      let left : ℕ = o.remaining_quantity - canceled_qty qty o in
      elim (Bool-cases (ltb o.remaining_quantity (canceled_qty qty o))) [
        | inl e ↦ rw e v
        | inr e ↦
            let z : (left == 0) ≡ true = ground (arith, whole, e) in
            rw (e, z)
              (subst
                (λ x. MirrorsBook x (
                  apply_update
                    (cancel_update t o.market_order_id o.side o.price (canceled_qty qty o)) m))
                (sym (remove-set_remaining o left b))
                (subst
                  (λ n. Mirrors n (book_orders (remove o b)) (
                    apply_update
                      (cancel_update t o.market_order_id o.side o.price (canceled_qty qty o)) m))
                  (sym (remove-next o b))
                  (leaves-Mirrors o m _ b.next_market_order_id _ _ (remove-Splice o b h)
                    (cancel-Sets t (canceled_qty qty o) o m) v)))
      ]

-- Nothing is filled where the opposite side is out of reach.
Fills-none :
    (i : Incoming) (t' t : Matching)
    → Fills i t' t
    → After (opposite i.side) i.price (levels (opposite i.side) t.book)
    → t' ≡ t
Fills-none i t' t stop h = refl
Fills-none i t' t (more p o os ls k f) h =
    let far : After (opposite i.side) i.price (record { price = p; orders = o ∷ os } ∷ ls) =
      subst (After (opposite i.side) i.price) k.best h in
    let e = Before→breaks i.side i.price p far.0 in let e' = k.reached in absurd (cc)

-- What follows the match in replaceOrder where something is left.
rest_or_kill_replaced-cases :
    (a : ℕ) (i : Incoming) (t : Matching)
    → (t.remaining == 0) ≡ false
    → (((rest_or_kill_replaced a i t).book ≡ insert a i t.remaining t.book)
        × ((rest_or_kill_replaced a i t).events ≡ t.events))
      ⊎ (((rest_or_kill_replaced a i t).book ≡ t.book)
          × ((rest_or_kill_replaced a i t).events
              ≡ t.events
                ++ response
                    (own_response i ResponseType.canceled 0 i.price t.remaining order_id_invalid)
                  ∷ update (cancel_update i.ticker_id i.market_order_id i.side i.price t.remaining)
                  ∷ []))
unfolding rest_or_kill_replaced
rest_or_kill_replaced-cases a i t h = ground arith

-- The old order is out, the replacement is announced, and rests or is killed with all its shares.
module _ (a : ℕ) (i : Incoming) (old : MeOrder) (b : MeOrderBook) (m : Orders) (h : Found old b)
    (v : Mirrors i.market_order_id (book_orders b) m) where
  announced : Orders
  announced = apply_update (modify_update i old.market_order_id) m

  start : Mirrors i.market_order_id (book_orders (remove old b)) (modify-Sets a i old m).0
  start =
      leaves-Mirrors old m _ i.market_order_id _ _ (remove-Splice old b h) (modify-Sets a i old m).1
        v

  rests-Mirrors :
      Mirrors
        (i.market_order_id + 1)
        (book_orders (insert a i i.initial_quantity (remove old b)))
        announced
  unfolding announced
  rests-Mirrors =
      joins-Mirrors (new_order a i i.initial_quantity) _ _ (i.market_order_id + 1) _ _
        (insert-Splice a i i.initial_quantity (remove old b)) (modify-Sets a i old m).2
        (below_ne i.market_order_id _ start.below) (omega arith)
        (Mirrors-next i.market_order_id _ _ start)

  killed-Mirrors : Mirrors (i.market_order_id + 1) (book_orders (remove old b)) (
      apply_update
        (cancel_update i.ticker_id i.market_order_id i.side i.price i.initial_quantity)
        announced)
  killed-Mirrors =
      leaves-Mirrors (new_order a i i.initial_quantity) announced _ (i.market_order_id + 1) _ _
        (insert-Splice a i i.initial_quantity (remove old b))
        (cancel-Sets i.ticker_id i.initial_quantity (new_order a i i.initial_quantity) announced)
        rests-Mirrors

module _ (a : ℕ) (i : Incoming) (old : MeOrder) (nmid : ℕ) (b : MeOrderBook) (m : Orders) where
  -- What replaceOrder leaves where the replacement fills nothing.
  abbrev unfilled : Outcome
  unfilled = replace_outcome a i old (started i nmid (remove old (bump b)))

  unfilled-Mirrors :
      (i.initial_quantity == 0) ≡ false
      → Found old (bump b)
      → Mirrors i.market_order_id (book_orders b) m
      → Mirrors (i.market_order_id + 1) (book_orders unfilled.book) (follow unfilled.events m)
  unfolding follow announced
  unfilled-Mirrors wants h v =
      elim (rest_or_kill_replaced-cases a i (started i nmid (remove old (bump b))) wants) [
        | inl (e, f) ↦ rw (e, f) (rests-Mirrors a i old (bump b) m h v)
        | inr (e, f) ↦ rw (e, f) (killed-Mirrors a i old (bump b) m h v)
      ]

  unfilled-next :
      (i.initial_quantity == 0) ≡ false
      → unfilled.book.next_market_order_id ≡ (bump b).next_market_order_id
  unfilled-next wants =
      elim (rest_or_kill_replaced-cases a i (started i nmid (remove old (bump b))) wants) [
        | inl (e, _) ↦
            ap (λ x. x.next_market_order_id) e
            ∙ insert-next a i i.initial_quantity (remove old (bump b))
            ∙ remove-next old (bump b)
        | inr (e, _) ↦ ap (λ x. x.next_market_order_id) e ∙ remove-next old (bump b)
      ]

  pub replace_found-Mirrors :
      IsValid b
      → i.market_order_id ≡ b.next_market_order_id
      → b.next_market_order_id + 1 < 2 ^ 64
      → (i.initial_quantity == 0) ≡ false
      → Found old b
      → After (opposite i.side) i.price (levels (opposite i.side) (remove old (bump b)))
      → MirrorsBook b m
      → (r : Outcome) × (replace_found a i old nmid b ≡ some r)
        × MirrorsBook r.book (follow r.events m)
  unfolding replace_found
  replace_found-Mirrors v e fits wants h far mirrors =
      let b' : MeOrderBook = remove old (bump b) in
      let (t, run, fills, _) =
        match_order_total i nmid b'
          (valid_from i.side b' (remove-IsValid old (bump b) (bump-IsValid b v))).opposite_ok in
      let same : t ≡ started i nmid b' = Fills-none i t (started i nmid b') fills far in
      let h' : Found old (bump b) =
        ap (λ ls. find_order old.address (level_orders old.price ls)) (levels-bump old.side b)
        ∙ h in
      let done : Mirrors (i.market_order_id + 1) (book_orders unfilled.book)
          (follow unfilled.events m) =
        unfilled-Mirrors wants h' (subst (λ n. Mirrors n (book_orders b) m) (sym e) mirrors) in
      let next : i.market_order_id + 1 ≡ unfilled.book.next_market_order_id =
        ap (λ n. n + 1) e ∙ sym (unfilled-next wants ∙ bumped b fits) in
      (
        unfilled,
        rw run (ap (λ x. some (replace_outcome a i old x)) same),
        subst (λ n. Mirrors n (book_orders unfilled.book) (follow unfilled.events m)) next done,
      )
