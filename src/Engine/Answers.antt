-- ===== src/Engine/Answers.antt =====
-- Every request is answered.
use nano_exchange.Base.{
  ℕ, ◌≡◌, refl, subst, true, false, ◌||◌, inl, inr, ◌⊎◌, Option, none, some, List, [], ◌∷◌, ◌++◌,
  ◌==◌, ltb, Bool-cases, ◌>>=◌,
}
use nano_exchange.Types.{
  Side, OrderType, OrderToken, ClientRequestType, MeClientRequest, MeClientResponse, MeOrder, Event,
  response, update,
}
use nano_exchange.MapBook.{MeOrderBook, Incoming, Matching, match_order, remove}
use nano_exchange.MapBook.Operations.{
  Outcome, deref, bump, add_incoming, add_order, incoming, cancel_found, cancel_order, canceled_qty,
  replace_found, replace_order, not_found, reject, add_outcome, replace_outcome, cancel_update,
}
use nano_exchange.Engine.{dispatch}

-- Among the events is a response to the client.
pub record Answered (c : ℕ) (es : List Event) : Type 0 where
  pub earlier : List Event
  pub answer : MeClientResponse
  pub later : List Event
  pub split : es ≡ earlier ++ response answer ∷ later
  pub to_client : answer.client_id ≡ c

first_answers :
    (c : ℕ) (m : MeClientResponse) (es : List Event)
    → m.client_id ≡ c
    → Answered c (response m ∷ es)
first_answers c m es e = record {
  earlier = [];
  answer = m;
  later = es;
  split = refl;
  to_client = e;
}

add_order-answers :
    (a t c k : ℕ) (type : OrderType) (p q : ℕ) (s : Side) (tok : OrderToken) (nmid : ℕ)
    (b : MeOrderBook) (r : Outcome)
    → add_order a t c k type p q s tok nmid b ≡ some r
    → Answered c r.events
unfolding add_order add_incoming
add_order-answers a t c k type p q s tok nmid b r h =
    go (match_order (incoming t c k type p q s tok b) nmid (bump b)) h
  where
    go :
        (x : Option Matching)
        → (x >>= λ m. some (add_outcome a (incoming t c k type p q s tok b) m)) ≡ some r
        → Answered c r.events
    go none e = cc
    go (some m) e =
        let f : add_outcome a (incoming t c k type p q s tok b) m ≡ r = cc in
        subst (λ y. Answered c y.events) f (first_answers c _ _ refl)

cancel_found-answers :
    (t c k qty : ℕ) (o : MeOrder) (nmid : ℕ) (b : MeOrderBook)
    → Answered c (cancel_found t c k qty o nmid b).events
unfolding cancel_found
cancel_found-answers t c k qty o nmid b =
    elim (Bool-cases (ltb o.remaining_quantity (canceled_qty qty o))) [
      | inl e ↦ rw e (first_answers c _ _ refl)
      | inr e ↦ rw e (record {
        earlier =
            update (cancel_update t o.market_order_id o.side o.price (canceled_qty qty o)) ∷ [];
        answer = _;
        later = [];
        split = refl;
        to_client = refl;
      })
    ]

cancel_order-answers :
    (t c k qty : ℕ) (tok : OrderToken) (nmid : ℕ) (b : MeOrderBook) (r : Outcome)
    → cancel_order t c k qty tok nmid b ≡ some r
    → Answered c r.events
unfolding cancel_order
cancel_order-answers t c k qty tok nmid b r h = go (b.orders c k) refl
  where
    found :
        (x : Option MeOrder)
        → (x >>= λ o. some (cancel_found t c k qty o nmid b)) ≡ some r
        → Answered c r.events
    found none e = cc
    found (some o) e =
        let f : cancel_found t c k qty o nmid b ≡ r = cc in
        subst (λ y. Answered c y.events) f (cancel_found-answers t c k qty o nmid b)

    go : (x : Option ℕ) → b.orders c k ≡ x → Answered c r.events
    go none e =
        let g : some (reject (not_found t c k tok) nmid b) ≡ some r = rw (e, cancel_order) at h in
        let f : reject (not_found t c k tok) nmid b ≡ r = cc in
        subst (λ y. Answered c y.events) f (first_answers c _ _ refl)
    go (some a) e = found (deref a b) (rw (e, cancel_order) at h)

replace_order-answers :
    (a t c k k' : ℕ) (type : OrderType) (p q : ℕ) (tok : OrderToken) (nmid : ℕ) (b : MeOrderBook)
    (r : Outcome)
    → replace_order a t c k k' type p q tok nmid b ≡ some r
    → Answered c r.events
unfolding replace_order replace_found
replace_order-answers a t c k k' type p q tok nmid b r h =
    go (b.orders c k) refl (Bool-cases ((k' == 0) || (q == 0)))
  where
    matched :
        (i : Incoming) (old : MeOrder) (x : Option Matching)
        → i.client_id ≡ c
        → (x >>= λ m. some (replace_outcome a i old m)) ≡ some r
        → Answered c r.events
    matched i old none s e = cc
    matched i old (some m) s e =
        let f : replace_outcome a i old m ≡ r = cc in
        subst (λ y. Answered c y.events) f (first_answers c _ _ s)

    found :
        (x : Option MeOrder)
        → (x >>= λ old. replace_found a (incoming t c k' type p q old.side tok b) old nmid b)
          ≡ some r
        → Answered c r.events
    found none e = cc
    found (some old) e =
        let i : Incoming = incoming t c k' type p q old.side tok b in
        matched i old (match_order i nmid (remove old (bump b))) refl e

    rejected : some (reject (not_found t c k tok) nmid b) ≡ some r → Answered c r.events
    rejected e =
        let f : reject (not_found t c k tok) nmid b ≡ r = cc in
        subst (λ y. Answered c y.events) f (first_answers c _ _ refl)

    go :
        (x : Option ℕ)
        → b.orders c k ≡ x
        → (((k' == 0) || (q == 0)) ≡ true) ⊎ (((k' == 0) || (q == 0)) ≡ false)
        → Answered c r.events
    go none e f = rejected (rw (e, replace_order) at h)
    go (some x) e (inl f) = rejected (rw f at (rw (e, replace_order) at h))
    go (some x) e (inr f) = found (deref x b) (rw f at (rw (e, replace_order) at h))

-- Whatever a request does to the book, a response to its client is among the pushes.
pub dispatch-answers :
    (t : ClientRequestType) (a : ℕ) (r : MeClientRequest) (id : ℕ) (b : MeOrderBook) (o : Outcome)
    → dispatch t a r id b ≡ some o
    → Answered r.client_id o.events
unfolding dispatch
dispatch-answers ClientRequestType.new a r id b o h =
    add_order-answers a r.ticker_id r.client_id r.client_order_id r.order_type r.price r.qty r.side
      r.order_token id b o h
dispatch-answers ClientRequestType.cancel a r id b o h =
    cancel_order-answers r.ticker_id r.client_id r.client_order_id r.qty r.order_token id b o h
dispatch-answers ClientRequestType.modify a r id b o h =
    replace_order-answers a r.ticker_id r.client_id r.client_order_id r.new_client_order_id
      r.order_type r.price r.qty r.order_token id b o h
