-- ===== src/VectorBook/Agreement.antt =====
-- The public operations of the book over vectors answer as those of the book over std::map do.
use nano_exchange.Base.{
  ℕ, ◌<◌, ◌≡◌, refl, sym, ap, subst, true, inl, inr, Option, some, List, [], ◌∷◌, ◌++◌, map, ltb,
  Bool-cases, inc64, ltb→lt,
}
use mathlib.Core.List.{map-append}
use nano_exchange.Types.{
  Side, OrderType, good_till_cancel, fill_and_kill, OrderToken, Event, response, accepted,
  order_id_invalid,
}
use nano_exchange.MapBook.{Incoming, own_response}
use nano_exchange.MapBook
use nano_exchange.MapBook.Operations as MapOperations
use nano_exchange.VectorBook.{max_price_levels}
use nano_exchange.VectorBook
use nano_exchange.VectorBook.Operations as VectorOperations
use nano_exchange.VectorBook.Refines.{BookRefines, insert-refines}
use nano_exchange.VectorBook.Matches.{without_match_id}
use nano_exchange.VectorBook.Loops.{over_vectors, match_order-refines}

-- The two calls leave the same, but the updates over vectors name no match.
pub record OutcomeRefines (vr : VectorOperations.Outcome) (r : MapOperations.Outcome) : Type 0 where
  pub books : BookRefines vr.book r.book
  pub same_match_id : vr.next_match_id ≡ r.next_match_id
  pub same_events : vr.events ≡ map without_match_id r.events

pub bump-refines :
    (vb : VectorBook.MeOrderBook) (b : MapBook.MeOrderBook)
    → BookRefines vb b
    → BookRefines (VectorOperations.bump vb) (MapOperations.bump b)
bump-refines vb b r = record {
  same_ticker = r.same_ticker;
  bids_refine = r.bids_refine;
  asks_refine = r.asks_refine;
  same_index = r.same_index;
  same_next_id = ap inc64 r.same_next_id;
}

module _ (a : ℕ) (vb : VectorBook.MeOrderBook) (m : MapBook.Matching)
    (r : BookRefines vb m.book) where
  abbrev RestAgrees : Incoming → Type 0
  RestAgrees i =
      (vr : VectorOperations.Outcome) × (VectorOperations.rest_or_kill a i (over_vectors vb m)
        ≡ some vr)
      × OutcomeRefines vr (MapOperations.rest_or_kill a i m)

  rest_by_type :
      (i : Incoming) (t : OrderType)
      → i.price < max_price_levels
      → ltb 0 m.remaining ≡ true
      → RestAgrees (record i { order_type = t })
  unfolding VectorOperations.rest_or_kill MapOperations.rest_or_kill
  rest_by_type i good_till_cancel bound e =
      let (vb', run, r') =
        insert-refines a (record i { order_type = good_till_cancel }) m.remaining vb m.book r
          (ltb→lt 0 m.remaining e) bound in
      rw (e, VectorOperations.rest_or_kill)
        (
          _,
          rw run refl,
          record {
            books = r';
            same_match_id = refl;
            same_events = sym (map-append without_match_id m.events _);
          },
        )
  rest_by_type i fill_and_kill bound e =
      rw (e, VectorOperations.rest_or_kill)
        (
          _,
          refl,
          record {
            books = r;
            same_match_id = refl;
            same_events = sym (map-append without_match_id m.events _);
          },
        )

  rest_or_kill-refines : (i : Incoming) → i.price < max_price_levels → RestAgrees i
  unfolding VectorOperations.rest_or_kill MapOperations.rest_or_kill
  rest_or_kill-refines i bound = elim (Bool-cases (ltb 0 m.remaining)) [
    | inl e ↦ rest_by_type i i.order_type bound e
    | inr e ↦
        rw (e, VectorOperations.rest_or_kill)
          (_, refl, record { books = r; same_match_id = refl; same_events = refl })
  ]

-- Both calls return, and leave the same.
abbrev pub Agree : Option VectorOperations.Outcome → Option MapOperations.Outcome → Type 0
Agree x y =
    (r : MapOperations.Outcome) × (y ≡ some r)
    × ((vr : VectorOperations.Outcome) × (x ≡ some vr) × OutcomeRefines vr r)

add_incoming-refines :
    (a : ℕ) (i : Incoming) (nmid : ℕ) (vb : VectorBook.MeOrderBook) (b : MapBook.MeOrderBook)
    → BookRefines vb b
    → i.price < max_price_levels
    → Agree (VectorOperations.add_incoming a i nmid vb) (MapOperations.add_incoming a i nmid b)
unfolding VectorOperations.add_incoming MapOperations.add_incoming
add_incoming-refines a i nmid vb b r bound =
    let (m, run, (vb', vrun, r')) =
      match_order-refines i nmid (VectorOperations.bump vb) (MapOperations.bump b)
        (bump-refines vb b r) in
    let (vr, rest, done) = rest_or_kill-refines a vb' m r' i bound in
    let es : List Event =
      response (own_response i accepted 0 i.price i.initial_quantity order_id_invalid) ∷ [] in
    (
      MapOperations.add_outcome a i m,
      rw run refl,
      (
        VectorOperations.prepend es vr,
        rw vrun (rw rest refl),
        record {
          books = done.books;
          same_match_id = done.same_match_id;
          same_events = ap (λ xs. es ++ xs) done.same_events;
        },
      ),
    )

-- The arguments of the match, which draw the same market order id.
pub incoming_same :
    (t c k : ℕ) (type : OrderType) (p q : ℕ) (s : Side) (tok : OrderToken)
    (vb : VectorBook.MeOrderBook) (b : MapBook.MeOrderBook)
    → BookRefines vb b
    → VectorOperations.incoming t c k type p q s tok vb
      ≡ MapOperations.incoming t c k type p q s tok b
incoming_same t c k type p q s tok vb b r j = record {
  ticker_id = t;
  client_id = c;
  client_order_id = k;
  market_order_id = r.same_next_id j;
  order_type = type;
  price = p;
  initial_quantity = q;
  side = s;
  order_token = tok;
}

-- addOrder over vectors and addOrder over std::map, on books of which one represents the other and
-- at a price within the arrays, both return; the books they leave represent each other, and they
-- push the same events in the same order, but for the match ids of the updates.
pub add_order-refines :
    (a t c k : ℕ) (type : OrderType) (p q : ℕ) (s : Side) (tok : OrderToken) (nmid : ℕ)
    (vb : VectorBook.MeOrderBook) (b : MapBook.MeOrderBook)
    → BookRefines vb b
    → p < max_price_levels
    → Agree
        (VectorOperations.add_order a t c k type p q s tok nmid vb)
        (MapOperations.add_order a t c k type p q s tok nmid b)
unfolding VectorOperations.add_order MapOperations.add_order
add_order-refines a t c k type p q s tok nmid vb b r bound =
    subst
      (λ i.
        Agree (VectorOperations.add_incoming a i nmid vb)
          (MapOperations.add_incoming a (MapOperations.incoming t c k type p q s tok b) nmid b))
      (sym (incoming_same t c k type p q s tok vb b r))
      (add_incoming-refines a (MapOperations.incoming t c k type p q s tok b) nmid vb b r bound)
