-- ===== src/Market/Source.antt =====
-- What the engine gives the publisher: updates of the incremental feed, of the request's ticker.
use nano_exchange.Base.{
  ℕ, ◌-◌, ◌≡◌, ◌⊎◌, arith, refl, sym, subst, true, false, inl, inr, Option, none, some, List, [],
  ◌∷◌, ◌++◌, min, ◌==◌, ◌||◌, ltb, Bool-cases, All, All-append, inc64,
}
use nano_exchange.Types.{
  ResponseType, order_id_invalid, OrderType, ClientRequestType, MeClientRequest, MeOrder, Event,
  response, update, OrderToken,
}
use nano_exchange.MapBook.{
  MeOrderBook, Incoming, Matching, fill_events, own_response, match_order, breaks, remove,
}
use nano_exchange.MapBook.Operations.{
  Outcome, add_update, cancel_update, rest_or_kill, rest_or_kill_replaced, add_incoming,
  add_outcome, add_order, incoming, bump, cancel_found, cancel_order, canceled_qty, replace_found,
  replace_outcome, replace_order, reject, not_found,
}
use nano_exchange.MapBook.Valid.{IsValid, valid_from, remove-IsValid}
use nano_exchange.MapBook.Invariant.{Points, bump-IsValid}
use nano_exchange.MapBook.Priority.{Served, serve, queue, match_order-serve}
use nano_exchange.Engine.{dispatch}
use nano_exchange.Market.Shadow.{changes}

-- A response, or an update of the incremental feed about the ticker.
abbrev pub OnFeed : ℕ → Event → Type 0
OnFeed t (response r) = Unit {0}
OnFeed t (update u) = (changes u.update_type ≡ true) × (u.ticker_id ≡ t)

serve-OnFeed :
    (i : Incoming) (id q : ℕ) (es : List Event) (os : List MeOrder)
    → All (OnFeed i.ticker_id) es
    → All (OnFeed i.ticker_id) (serve i id q es os).events
unfolding serve
serve-OnFeed i id q es [] h = h
serve-OnFeed i id q es (o ∷ os) h =
    let fill : ℕ = min q o.remaining_quantity in
    let left : ℕ = o.remaining_quantity - fill in
    let new : List Event = fill_events i o.price id fill left (q - fill) o in
    let more : All (OnFeed i.ticker_id) (es ++ new) =
      All-append (OnFeed i.ticker_id) es new h (tt, (tt, ((refl, refl), tt))) in
    elim (Bool-cases ((q == 0) || breaks i.side i.price o.price)) [
      | inl z ↦ rw z h
      | inr z ↦ rw z (elim (Bool-cases (left == 0)) [
        | inl f ↦ rw f (serve-OnFeed i (inc64 id) (q - fill) (es ++ new) os more)
        | inr f ↦ rw f more
      ])
    ]

match_order-OnFeed :
    (i : Incoming) (nmid : ℕ) (b : MeOrderBook)
    → IsValid b
    → (m : Matching) × (match_order i nmid b ≡ some m) × All (OnFeed i.ticker_id) m.events
match_order-OnFeed i nmid b v =
    let (m, run, e) = match_order-serve i nmid b (valid_from i.side b v).opposite_ok in
    (
      m,
      run,
      subst (λ (r : Served). All (OnFeed i.ticker_id) r.events) (sym e)
          (serve-OnFeed i nmid i.initial_quantity [] (queue i b) tt),
    )

-- What follows the match pushes nothing more, or what is of the feed.
rest_or_kill-OnFeed :
    (a : ℕ) (i : Incoming) (m : Matching)
    → All (OnFeed i.ticker_id) m.events
    → All (OnFeed i.ticker_id) (rest_or_kill a i m).events
unfolding rest_or_kill
rest_or_kill-OnFeed a i m h = elim pushes [
  | inl e ↦ subst Feed (sym e) h
  | inr (inl e) ↦
      subst Feed (sym e) (All-append (OnFeed i.ticker_id) m.events _ h ((refl, refl), tt))
  | inr (inr e) ↦ subst Feed (sym e) (All-append (OnFeed i.ticker_id) m.events _ h (tt, tt))
]
  where
    Feed : List Event → Type 0
    Feed = All (OnFeed i.ticker_id)

    pushes :
        ((rest_or_kill a i m).events ≡ m.events)
        ⊎ (((rest_or_kill a i m).events ≡ m.events ++ update (add_update i m.remaining) ∷ [])
            ⊎ ((rest_or_kill a i m).events
                ≡ m.events
                  ++ response
                      (own_response i ResponseType.canceled 0 i.price m.remaining order_id_invalid)
                    ∷ []))
    pushes = ground arith

rest_or_kill_replaced-OnFeed :
    (a : ℕ) (i : Incoming) (m : Matching)
    → All (OnFeed i.ticker_id) m.events
    → All (OnFeed i.ticker_id) (rest_or_kill_replaced a i m).events
unfolding rest_or_kill_replaced
rest_or_kill_replaced-OnFeed a i m h = elim pushes [
  | inl e ↦ subst Feed (sym e) h
  | inr e ↦
      subst Feed (sym e) (All-append (OnFeed i.ticker_id) m.events _ h (tt, ((refl, refl), tt)))
]
  where
    Feed : List Event → Type 0
    Feed = All (OnFeed i.ticker_id)

    pushes :
        ((rest_or_kill_replaced a i m).events ≡ m.events)
        ⊎ ((rest_or_kill_replaced a i m).events
            ≡ m.events
              ++ response
                  (own_response i ResponseType.canceled 0 i.price m.remaining order_id_invalid)
                ∷ update (cancel_update i.ticker_id i.market_order_id i.side i.price m.remaining)
                ∷ [])
    pushes = ground arith

cancel_found-OnFeed :
    (t c k qty : ℕ) (o : MeOrder) (nmid : ℕ) (b : MeOrderBook)
    → All (OnFeed t) (cancel_found t c k qty o nmid b).events
unfolding cancel_found
cancel_found-OnFeed t c k qty o nmid b =
    elim (Bool-cases (ltb o.remaining_quantity (canceled_qty qty o))) [
      | inl e ↦ rw e (tt, tt)
      | inr e ↦ rw e ((refl, refl), (tt, tt))
    ]

add_incoming-OnFeed :
    (a : ℕ) (i : Incoming) (nmid : ℕ) (b : MeOrderBook)
    → IsValid b
    → (r : Outcome) × (add_incoming a i nmid b ≡ some r) × All (OnFeed i.ticker_id) r.events
unfolding add_incoming
add_incoming-OnFeed a i nmid b v =
    let (m, run, h) = match_order-OnFeed i nmid (bump b) (bump-IsValid b v) in
    (add_outcome a i m, rw run refl, (tt, rest_or_kill-OnFeed a i m h))

replace_found-OnFeed :
    (a : ℕ) (i : Incoming) (old : MeOrder) (nmid : ℕ) (b : MeOrderBook)
    → IsValid b
    → (r : Outcome) × (replace_found a i old nmid b ≡ some r) × All (OnFeed i.ticker_id) r.events
unfolding replace_found
replace_found-OnFeed a i old nmid b v =
    let (m, run, h) =
      match_order-OnFeed i nmid (remove old (bump b))
        (remove-IsValid old (bump b) (bump-IsValid b v)) in
    (
      replace_outcome a i old m,
      rw run refl,
      (tt, ((refl, refl), rest_or_kill_replaced-OnFeed a i m h)),
    )

cancel_order-OnFeed :
    (t c k qty : ℕ) (tok : OrderToken) (nmid : ℕ) (b : MeOrderBook)
    → Points b c k
    → (r : Outcome) × (cancel_order t c k qty tok nmid b ≡ some r) × All (OnFeed t) r.events
unfolding cancel_order
cancel_order-OnFeed t c k qty tok nmid b points = go (b.orders c k) refl
  where
    go :
        (x : Option ℕ)
        → b.orders c k ≡ x
        → (r : Outcome) × (cancel_order t c k qty tok nmid b ≡ some r) × All (OnFeed t) r.events
    go none e = (reject (not_found t c k tok) nmid b, rw (e, cancel_order) refl, (tt, tt))
    go (some a) e =
        let (o, found) = points a e in
        (
          cancel_found t c k qty o nmid b,
          rw (e, cancel_order) (rw found refl),
          cancel_found-OnFeed t c k qty o nmid b,
        )

replace_order-OnFeed :
    (a t c k k' : ℕ) (type : OrderType) (p q : ℕ) (tok : OrderToken) (nmid : ℕ) (b : MeOrderBook)
    → IsValid b
    → Points b c k
    → (r : Outcome) × (replace_order a t c k k' type p q tok nmid b ≡ some r)
      × All (OnFeed t) r.events
unfolding replace_order
replace_order-OnFeed a t c k k' type p q tok nmid b v points =
    go (b.orders c k) refl (Bool-cases ((k' == 0) || (q == 0)))
  where
    go :
        (x : Option ℕ)
        → b.orders c k ≡ x
        → (((k' == 0) || (q == 0)) ≡ true) ⊎ (((k' == 0) || (q == 0)) ≡ false)
        → (r : Outcome) × (replace_order a t c k k' type p q tok nmid b ≡ some r)
          × All (OnFeed t) r.events
    go none e f = (reject (not_found t c k tok) nmid b, rw (e, replace_order) refl, (tt, tt))
    go (some x) e (inl f) =
        (reject (not_found t c k tok) nmid b, rw (e, replace_order) (rw f refl), (tt, tt))
    go (some x) e (inr f) =
        let (o, found) = points x e in
        let (r, run, h) =
          replace_found-OnFeed a (incoming t c k' type p q o.side tok b) o nmid b v in
        (r, rw (e, replace_order) (rw f (rw found run)), h)

-- Whatever the request, a valid book whose pointer for the client's order is not dangling answers
-- it, and every market update that it pushes is one of the incremental feed (never a control
-- message, which has no encoding) and names the request's ticker.
pub dispatch-OnFeed :
    (action : ClientRequestType) (a : ℕ) (r : MeClientRequest) (nmid : ℕ) (b : MeOrderBook)
    → IsValid b
    → Points b r.client_id r.client_order_id
    → (o : Outcome) × (dispatch action a r nmid b ≡ some o) × All (OnFeed r.ticker_id) o.events
unfolding dispatch add_order
dispatch-OnFeed ClientRequestType.new a r nmid b v p =
    add_incoming-OnFeed a
      (incoming r.ticker_id r.client_id r.client_order_id r.order_type r.price r.qty r.side
        r.order_token b)
      nmid b v
dispatch-OnFeed ClientRequestType.cancel a r nmid b v p =
    cancel_order-OnFeed r.ticker_id r.client_id r.client_order_id r.qty r.order_token nmid b p
dispatch-OnFeed ClientRequestType.modify a r nmid b v p =
    replace_order-OnFeed a r.ticker_id r.client_id r.client_order_id r.new_client_order_id
      r.order_type r.price r.qty r.order_token nmid b v p
