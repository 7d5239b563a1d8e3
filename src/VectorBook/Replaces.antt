-- ===== src/VectorBook/Replaces.antt =====
-- replaceOrder over vectors follows replaceOrder over std::map.
use nano_exchange.Base.{
  ℕ, ◌<◌, ◌≡◌, refl, sym, ap, ◌∙◌, subst, true, false, ◌||◌, ◌⊎◌, inl, inr, Option, none, some,
  List, [], ◌∷◌, ◌++◌, map, append-nil, ltb, ◌==◌, Bool-cases, ◌>>=◌, arith, ltb→lt,
}
use mathlib.Core.List.{map-append}
use nano_exchange.Types.{
  OrderType, good_till_cancel, fill_and_kill, OrderToken, MeOrder, Event, response, update,
  modified, canceled, order_id_invalid, Side, buy,
}
use nano_exchange.Levels.Remove.{level_orders}
use nano_exchange.MapBook.{Incoming, own_response}
use nano_exchange.MapBook
use nano_exchange.MapBook.Operations.{not_found, modify_update, cancel_update}
use nano_exchange.MapBook.Invariant.{levels-bump}
use nano_exchange.MapBook.Operations as MapOperations
use nano_exchange.VectorBook.{max_price_levels}
use nano_exchange.VectorBook
use nano_exchange.VectorBook.Operations as VectorOperations
use nano_exchange.VectorBook.Refines.{BookRefines, insert-refines, remove-refines}
use nano_exchange.VectorBook.Matches.{without_match_id}
use nano_exchange.VectorBook.Loops.{over_vectors, match_order-refines}
use nano_exchange.VectorBook.Agreement.{bump-refines, incoming_same}
use nano_exchange.VectorBook.Cancels.{deref-refines, found_level}

-- What the book over std::map pushes at last of a fill-and-kill order, of which `left` remains.
abbrev pub killed : Incoming → ℕ → List Event
killed i left =
    response (own_response i canceled 0 i.price left order_id_invalid)
    ∷ update (cancel_update i.ticker_id i.market_order_id i.side i.price left)
    ∷ []

-- The two calls leave the same, but the updates over vectors name no match, and that the remainder
-- of a fill-and-kill order is killed is not said: no other push is left out.
pub record ReplaceRefines (i : Incoming) (vr : VectorOperations.Outcome) (r : MapOperations.Outcome)
    : Type 0 where
  pub books : BookRefines vr.book r.book
  pub same_match_id : vr.next_match_id ≡ r.next_match_id
  pub unsaid : List Event
  pub same_events : map without_match_id r.events ≡ vr.events ++ map without_match_id unsaid
  pub said :
      (unsaid ≡ [])
      ⊎ ((i.order_type ≡ fill_and_kill) × ((left : ℕ) × (0 < left) × (unsaid ≡ killed i left)))

module _ (a : ℕ) (vb : VectorBook.MeOrderBook) (m : MapBook.Matching)
    (r : BookRefines vb m.book) where
  abbrev RestAgrees : Incoming → Type 0
  RestAgrees i =
      (vr : VectorOperations.Outcome) × (VectorOperations.rest_replaced a i (over_vectors vb m)
        ≡ some vr)
      × ReplaceRefines i vr (MapOperations.rest_or_kill_replaced a i m)

  rest_by_type :
      (i : Incoming) (t : OrderType)
      → i.price < max_price_levels
      → ltb 0 m.remaining ≡ true
      → (m.remaining == 0) ≡ false
      → RestAgrees (record i { order_type = t })
  unfolding VectorOperations.rest_replaced MapOperations.rest_or_kill_replaced
  rest_by_type i good_till_cancel bound e f =
      let (vb', run, r') =
        insert-refines a (record i { order_type = good_till_cancel }) m.remaining vb m.book r
          (ltb→lt 0 m.remaining e) bound in
      rw (e, f, VectorOperations.rest_replaced, MapOperations.rest_or_kill_replaced)
        (
          _,
          rw run refl,
          record {
            books = r';
            same_match_id = refl;
            unsaid = [];
            same_events = sym (append-nil _);
            said = inl refl;
          },
        )
  rest_by_type i fill_and_kill bound e f =
      rw (e, f, VectorOperations.rest_replaced, MapOperations.rest_or_kill_replaced)
        (
          _,
          refl,
          record {
            books = r;
            same_match_id = refl;
            unsaid = killed (record i { order_type = fill_and_kill }) m.remaining;
            same_events = map-append without_match_id m.events _;
            said = inr (refl, (m.remaining, ltb→lt 0 m.remaining e, refl));
          },
        )

  rest_replaced-refines : (i : Incoming) → i.price < max_price_levels → RestAgrees i
  unfolding VectorOperations.rest_replaced MapOperations.rest_or_kill_replaced
  rest_replaced-refines i bound = elim (Bool-cases (ltb 0 m.remaining)) [
    | inl e ↦ rest_by_type i i.order_type bound e (ground (arith, e))
    | inr e ↦
        let f : (m.remaining == 0) ≡ true = ground (arith, e) in
        rw (e, f, VectorOperations.rest_replaced, MapOperations.rest_or_kill_replaced)
          (
            _,
            refl,
            record {
              books = r;
              same_match_id = refl;
              unsaid = [];
              same_events = sym (append-nil _);
              said = inl refl;
            },
          )
  ]

replace_found-refines :
    (a : ℕ) (i : Incoming) (old : MeOrder) (nmid x : ℕ) (vb : VectorBook.MeOrderBook)
    (b : MapBook.MeOrderBook)
    → BookRefines vb b
    → MapOperations.deref x b ≡ some old
    → i.price < max_price_levels
    → (r : MapOperations.Outcome) × (MapOperations.replace_found a i old nmid b ≡ some r)
      × ((vr : VectorOperations.Outcome) × (VectorOperations.replace_found a i old nmid vb
            ≡ some vr)
          × ReplaceRefines i vr r)
unfolding VectorOperations.replace_found MapOperations.replace_found
replace_found-refines a i old nmid x vb b r h bound =
    let (_, _, _, level) = found_level x vb b old r h in
    let (m, run, (vb', vrun, r')) = match_order-refines i nmid _ _ (
      remove-refines old _ _ (bump-refines vb b r)
        (λ e. level (ap (level_orders old.price) (sym (levels-bump old.side b)) ∙ e))) in
    let (vr, rest, done) = rest_replaced-refines a vb' m r' i bound in
    let es : List Event =
      response (own_response i modified 0 i.price i.initial_quantity order_id_invalid)
      ∷ update (modify_update i old.market_order_id)
      ∷ [] in
    (
      MapOperations.replace_outcome a i old m,
      rw run refl,
      (
        VectorOperations.prepend es vr,
        rw vrun (rw rest refl),
        record {
          books = done.books;
          same_match_id = done.same_match_id;
          unsaid = done.unsaid;
          same_events = ap (λ xs. es ++ xs) done.same_events;
          said = done.said;
        },
      ),
    )

-- replaceOrder over vectors, where replaceOrder over std::map returns, the one book represents the
-- other and the price is within the arrays, returns too; the books it leaves represent each other,
-- and its pushes are those over std::map but for the match ids of the updates and, where a
-- remainder of a fill-and-kill order is killed, the two last pushes, the response and the update
-- that say so, which are left out.
pub replace_order-refines :
    (a t c k k' : ℕ) (type : OrderType) (p q : ℕ) (tok : OrderToken) (nmid : ℕ)
    (vb : VectorBook.MeOrderBook) (b : MapBook.MeOrderBook) (r : MapOperations.Outcome)
    → BookRefines vb b
    → p < max_price_levels
    → MapOperations.replace_order a t c k k' type p q tok nmid b ≡ some r
    → (vr : VectorOperations.Outcome) × (VectorOperations.replace_order a t c k k' type p q tok nmid
          vb
        ≡ some vr)
      × ((side : Side) × ReplaceRefines (MapOperations.incoming t c k' type p q side tok b) vr r)
unfolding VectorOperations.replace_order MapOperations.replace_order
replace_order-refines a t c k k' type p q tok nmid vb b r refines bound h =
    go (b.orders c k) refl (Bool-cases ((k' == 0) || (q == 0)))
  where
    Result : Option VectorOperations.Outcome → Type 0
    Result x =
        (vr : VectorOperations.Outcome) × (x ≡ some vr)
        × ((side : Side) × ReplaceRefines (MapOperations.incoming t c k' type p q side tok b) vr r)

    same : (x : Option ℕ) → b.orders c k ≡ x → vb.orders c k ≡ x
    same x e = ap (λ f. f c k) refines.same_index ∙ e

    rejected :
        some (MapOperations.reject (not_found t c k tok) nmid b) ≡ some r
        → Result (some (VectorOperations.reject (not_found t c k tok) nmid vb))
    rejected e =
        let f : MapOperations.reject (not_found t c k tok) nmid b ≡ r = cc in
        (
          VectorOperations.reject (not_found t c k tok) nmid vb,
          refl,
          (
            buy,
            subst (ReplaceRefines _ _) f (record {
              books = refines;
              same_match_id = refl;
              unsaid = [];
              same_events = refl;
              said = inl refl;
            }),
          ),
        )

    found :
        (x : ℕ) (y : Option MeOrder)
        → MapOperations.deref x b ≡ y
        → (y >>= λ old.
            MapOperations.replace_found a
              (MapOperations.incoming t c k' type p q old.side tok b)
              old
              nmid
              b)
          ≡ some r
        → Result (
            y >>= λ old.
            VectorOperations.replace_found a
              (VectorOperations.incoming t c k' type p q old.side tok vb)
              old
              nmid
              vb)
    found x none e f = cc
    found x (some old) e f =
        let (r', run, (vr, vrun, done)) =
          replace_found-refines a (MapOperations.incoming t c k' type p q old.side tok b) old nmid x
            vb b refines e bound in
        let g : some r' ≡ some r = sym run ∙ f in
        let g' : r' ≡ r = cc in
        (
          vr,
          ap (λ i. VectorOperations.replace_found a i old nmid vb)
                (incoming_same t c k' type p q old.side tok vb b refines)
              ∙ vrun,
          (old.side, subst (ReplaceRefines _ vr) g' done),
        )

    go :
        (x : Option ℕ)
        → b.orders c k ≡ x
        → (((k' == 0) || (q == 0)) ≡ true) ⊎ (((k' == 0) || (q == 0)) ≡ false)
        → Result (VectorOperations.replace_order a t c k k' type p q tok nmid vb)
    go none e f =
        rw (same none e, VectorOperations.replace_order)
          (rejected (rw (e, MapOperations.replace_order) at h))
    go (some x) e (inl f) =
        rw (same (some x) e, VectorOperations.replace_order)
          (rw f (rejected (rw f at (rw (e, MapOperations.replace_order) at h))))
    go (some x) e (inr f) =
        rw (same (some x) e, VectorOperations.replace_order)
          (rw (f, deref-refines x vb b refines)
            (found x (MapOperations.deref x b) refl
              (rw f at (rw (e, MapOperations.replace_order) at h))))
