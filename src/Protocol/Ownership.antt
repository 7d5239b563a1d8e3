-- ===== src/Protocol/Ownership.antt =====
-- What a decoded request refers to, and what a client reads back from a response.
use nano_exchange.Base.{
  ℕ, ◌%◌, ◌^◌, ◌<◌, ◌≡◌, ◌⊎◌, refl, subst, true, false, Option, none, some, ◌==◌, arith, Bool-cases,
  inl, inr, leb, Option-cases,
}
use nano_exchange.Types.{OrderToken, MeClientRequest}
use nano_exchange.Gateway.Tokens.{OrderTokenManager, register_new_token, get_id, find_entry}
use nano_exchange.Gateway.Isolation.{IsOwned, SlotOf, register-IsOwned}
use nano_exchange.Protocol.Ouch.{
  EnterOrder, CancelOrder, ReplaceOrder, Inbound, enter, cancel, replace, unknown, decode_enter,
  decode_cancel, decode_replace, decode_ouch, ticker_of,
}

-- What registration returns: 0 and nothing changed, or the id of a slot of the client.
register-cases :
    (c : ℕ) (t : OrderToken) (ticker : ℕ) (m : OrderTokenManager)
    → IsOwned m
    → (register_new_token c t ticker m ≡ (0, m))
      ⊎ SlotOf (register_new_token c t ticker m).1 c t (register_new_token c t ticker m).0
unfolding register_new_token
register-cases c t ticker m v = elim (Bool-cases (leb m.pool_size m.next_internal_id)) [
  | inl e ↦ inl (rw e refl)
  | inr e ↦
      let f : (m.next_internal_id == m.next_internal_id) ≡ true = ground arith in
      let pos : 0 < m.next_internal_id = v.positive in
      inr (
        rw e (
          pos,
          omega arith,
          (record { token = t; ticker_id = ticker; client_id = c }, rw f refl, refl, refl),
        ))
]

-- A slot that is in use is never written again.
SlotOf-register :
    (c : ℕ) (t : OrderToken) (ticker : ℕ) (m : OrderTokenManager) (c' : ℕ) (t' : OrderToken) (n : ℕ)
    → SlotOf m c' t' n
    → SlotOf (register_new_token c t ticker m).1 c' t' n
unfolding register_new_token
SlotOf-register c t ticker m c' t' n (pos, lt, (s, e, x, y)) =
    elim (Bool-cases (leb m.pool_size m.next_internal_id)) [
      | inl full ↦ rw full (pos, lt, (s, e, x, y))
      | inr room ↦
          let f : (n == m.next_internal_id) ≡ false = ground arith in
          rw room (pos, omega arith, (s, rw f e, x, y))
    ]

pub get_id-cases :
    (c : ℕ) (t : OrderToken) (m : OrderTokenManager)
    → IsOwned m
    → (get_id c t m ≡ 0) ⊎ SlotOf m c t (get_id c t m)
unfolding get_id
get_id-cases c t m v = elim (Option-cases (find_entry c t m.token_to_id)) [
  | inl e ↦ inl (rw (e, get_id) refl)
  | inr (n, e) ↦ inr (rw (e, get_id) (v.owned c t n e))
]

-- The requests that a client's message may give rise to.
abbrev Own : ℕ → Option MeClientRequest × OrderTokenManager → Type 0
Own c (none, m) = IsOwned m
Own c (some r, m) =
    IsOwned m × (r.client_id ≡ c) × ((t : OrderToken) × SlotOf m c t r.client_order_id)

decode_enter-Own :
    (msg : EnterOrder) (c : ℕ) (m : OrderTokenManager) → IsOwned m → Own c (decode_enter msg c m)
unfolding decode_enter
decode_enter-Own msg c m v = elim (register-cases c msg.order_token (msg.stock % 2 ^ 32) m v) [
  | inl e ↦ rw e v
  | inr slot ↦
      let z : ((register_new_token c msg.order_token (msg.stock % 2 ^ 32) m).0 == 0) ≡ false =
        let pos : 0 < (register_new_token c msg.order_token (msg.stock % 2 ^ 32) m).0 = slot.0 in
        ground arith in
      rw z
        (register-IsOwned c msg.order_token (msg.stock % 2 ^ 32) m v, refl, (msg.order_token, slot))
]

decode_cancel-Own :
    (msg : CancelOrder) (c : ℕ) (m : OrderTokenManager) → IsOwned m → Own c (decode_cancel msg c m)
unfolding decode_cancel
decode_cancel-Own msg c m v = elim (get_id-cases c msg.order_token m v) [
  | inl e ↦ rw e v
  | inr slot ↦
      let pos : 0 < get_id c msg.order_token m = slot.0 in
      let z : (get_id c msg.order_token m == 0) ≡ false = ground arith in
      rw z (v, refl, (msg.order_token, slot))
]

decode_replace-Own :
    (msg : ReplaceOrder) (c : ℕ) (m : OrderTokenManager)
    → IsOwned m
    → Own c (decode_replace msg c m)
unfolding decode_replace
decode_replace-Own msg c m v = elim (get_id-cases c msg.existing_order_token m v) [
  | inl e ↦ rw e v
  | inr slot ↦
      let id : ℕ = get_id c msg.existing_order_token m in
      let new : OrderTokenManager =
        (register_new_token c msg.replacement_order_token (ticker_of id m) m).1 in
      let pos : 0 < get_id c msg.existing_order_token m = slot.0 in
      let z : (get_id c msg.existing_order_token m == 0) ≡ false = ground arith in
      let w : IsOwned new = register-IsOwned c msg.replacement_order_token (ticker_of id m) m v in
      rw z
        (elim (Bool-cases
          ((register_new_token c msg.replacement_order_token (ticker_of id m) m).0 == 0)) [
            | inl f ↦ rw f w
            | inr f ↦ rw f (
              w,
              refl,
              (
                msg.existing_order_token,
                SlotOf-register c msg.replacement_order_token (ticker_of id m) m c
                    msg.existing_order_token id slot,
              ),
            )
          ])
]

decoded-Own : (x : Inbound) (c : ℕ) (m : OrderTokenManager) → IsOwned m → Own c (decode_ouch x c m)
unfolding decode_ouch
decoded-Own (enter msg) c m v = decode_enter-Own msg c m v
decoded-Own (cancel msg) c m v = decode_cancel-Own msg c m v
decoded-Own (replace msg) c m v = decode_replace-Own msg c m v
decoded-Own unknown c m v = v

Own-IsOwned :
    (c : ℕ) (x : Option MeClientRequest) (m : OrderTokenManager) → Own c (x, m) → IsOwned m
Own-IsOwned c none m h = h
Own-IsOwned c (some r) m h = h.0

-- Whatever a message says, the token manager stays sound.
pub decode_ouch-IsOwned :
    (x : Inbound) (c : ℕ) (m : OrderTokenManager) → IsOwned m → IsOwned (decode_ouch x c m).1
decode_ouch-IsOwned x c m v =
    Own-IsOwned c (decode_ouch x c m).0 (decode_ouch x c m).1 (decoded-Own x c m v)

-- A message of a client never yields a request about another client's order: the request is the
-- client's, its order id was drawn for a token of that client, whatever tokens the message names,
-- if every id that the token manager resolves a token to was drawn for that client and token, and
-- it keeps this for the messages to come.
pub decode_ouch-Own :
    (x : Inbound) (c : ℕ) (m : OrderTokenManager) (r : MeClientRequest) (m' : OrderTokenManager)
    → IsOwned m
    → decode_ouch x c m ≡ (some r, m')
    → IsOwned m' × (r.client_id ≡ c) × ((t : OrderToken) × SlotOf m' c t r.client_order_id)
decode_ouch-Own x c m r m' v e = subst (Own c) e (decoded-Own x c m v)
