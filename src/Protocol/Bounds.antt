-- ===== src/Protocol/Bounds.antt =====
-- The ids of src/network/protocol/ouch_processor.h as indices of `id_to_token_` of
-- src/network/gateway/token_manager.h, which the code indexes with no test.
use nano_exchange.Base.{
  ℕ, ◌%◌, ◌^◌, ◌<◌, ◌≤◌, ◌≡◌, refl, subst, Option, none, some, ◌==◌, arith, Bool-cases, inl, inr,
}
use nano_exchange.Types.{OrderToken, ClientRequestType, MeClientRequest}
use nano_exchange.Gateway.Tokens.{OrderTokenManager, register_new_token, get_id}
use nano_exchange.Gateway.Isolation.{IsOwned}
use nano_exchange.Protocol.Ouch.{
  EnterOrder, CancelOrder, ReplaceOrder, Inbound, enter, cancel, replace, unknown, decode_enter,
  decode_cancel, decode_replace, decode_ouch, ticker_of,
}
use nano_exchange.Protocol.Ownership.{decode_ouch-IsOwned, decode_ouch-Own, get_id-cases}

-- The slots in use are slots of the vector, which has one at least.
pub record InRange (m : OrderTokenManager) : Type 0 where
  pub some_slot : 0 < m.pool_size
  pub next_fits : m.next_internal_id ≤ m.pool_size

-- What registration draws.
module _ (c : ℕ) (t : OrderToken) (ticker : ℕ) (m : OrderTokenManager) where
  register-InRange : InRange m → InRange (register_new_token c t ticker m).1
  unfolding register_new_token
  register-InRange v = ground arith

  register-lt : InRange m → (register_new_token c t ticker m).0 < m.pool_size
  unfolding register_new_token
  register-lt v = ground arith

  register-size : (register_new_token c t ticker m).1.pool_size ≡ m.pool_size
  unfolding register_new_token
  register-size = ground arith

-- A replacement has a new id, which was drawn; other requests have none.
abbrev pub NewId : ClientRequestType → ℕ → ℕ → Type 0
NewId ClientRequestType.new size id = id ≡ 0
NewId ClientRequestType.cancel size id = id ≡ 0
NewId ClientRequestType.modify size id = (0 < id) × (id < size)

abbrev pub NewIdFits : ℕ → Option MeClientRequest → Type 0
NewIdFits size none = Unit {0}
NewIdFits size (some r) = NewId r.action size r.new_client_order_id

-- What a message leaves of the vector, and the new id.
abbrev Draws : OrderTokenManager → Option MeClientRequest × OrderTokenManager → Type 0
Draws m (x, m') = InRange m' × (m'.pool_size ≡ m.pool_size) × NewIdFits m.pool_size x

decode_enter-Draws :
    (msg : EnterOrder) (c : ℕ) (m : OrderTokenManager) → InRange m → Draws m (decode_enter msg c m)
unfolding decode_enter
decode_enter-Draws msg c m v =
    let ticker : ℕ = msg.stock % 2 ^ 32 in
    let kept = register-InRange c msg.order_token ticker m v in
    let size = register-size c msg.order_token ticker m in
    elim (Bool-cases ((register_new_token c msg.order_token ticker m).0 == 0)) [
      | inl e ↦ rw e (kept, size, tt)
      | inr e ↦ rw e (kept, size, refl)
    ]

decode_cancel-Draws :
    (msg : CancelOrder) (c : ℕ) (m : OrderTokenManager)
    → InRange m
    → Draws m (decode_cancel msg c m)
unfolding decode_cancel
decode_cancel-Draws msg c m v = elim (Bool-cases (get_id c msg.order_token m == 0)) [
  | inl e ↦ rw e (v, refl, tt)
  | inr e ↦ rw e (v, refl, refl)
]

decode_replace-Draws :
    (msg : ReplaceOrder) (c : ℕ) (m : OrderTokenManager)
    → InRange m
    → Draws m (decode_replace msg c m)
unfolding decode_replace
decode_replace-Draws msg c m v =
    let id : ℕ = get_id c msg.existing_order_token m in
    let t : OrderToken = msg.replacement_order_token in
    let kept = register-InRange c t (ticker_of id m) m v in
    let size = register-size c t (ticker_of id m) m in
    let fits = register-lt c t (ticker_of id m) m v in
    elim (Bool-cases (id == 0)) [
      | inl e ↦ rw e (v, refl, tt)
      | inr e ↦ rw e (elim (Bool-cases ((register_new_token c t (ticker_of id m) m).0 == 0)) [
        | inl f ↦ rw f (kept, size, tt)
        | inr f ↦ rw f (kept, size, (ground (arith, f), fits))
      ])
    ]

decode_ouch-Draws :
    (x : Inbound) (c : ℕ) (m : OrderTokenManager) → InRange m → Draws m (decode_ouch x c m)
unfolding decode_ouch
decode_ouch-Draws (enter msg) c m v = decode_enter-Draws msg c m v
decode_ouch-Draws (cancel msg) c m v = decode_cancel-Draws msg c m v
decode_ouch-Draws (replace msg) c m v = decode_replace-Draws msg c m v
decode_ouch-Draws unknown c m v = (v, refl, tt)

get_id-lt :
    (c : ℕ) (t : OrderToken) (m : OrderTokenManager)
    → IsOwned m
    → InRange m
    → get_id c t m < m.pool_size
get_id-lt c t m v w = elim (get_id-cases c t m v) [
  | inl e ↦ let h = w.some_slot in omega (arith, e, h)
  | inr (_, lt, _) ↦ let h = w.next_fits in omega (arith, lt, h)
]

-- The ids of a request: its order's was drawn, and a new one too.
abbrev pub IdsFit : ℕ → Option MeClientRequest → Type 0
IdsFit size none = Unit {0}
IdsFit size (some r) =
    (0 < r.client_order_id) × (r.client_order_id < size) × NewId r.action size r.new_client_order_id

ids_fit :
    (x : Inbound) (c : ℕ) (m : OrderTokenManager) (y : Option MeClientRequest)
    (m' : OrderTokenManager)
    → IsOwned m
    → decode_ouch x c m ≡ (y, m')
    → Draws m (y, m')
    → IdsFit m.pool_size y
ids_fit x c m none m' v e d = tt
ids_fit x c m (some r) m' v e d =
    let (_, _, (_, (pos, lt, _))) = decode_ouch-Own x c m r m' v e in
    let next = d.0.next_fits in let size = d.1 in (pos, omega (arith, lt, next, size), d.2)

-- No message makes the decoder or the token manager leave the vector of tokens, whose size does not
-- change: after it the next id is again a slot or the end, every token of every client resolves to
-- a slot, and the request that the message yields, if it does, is about a slot that is not the
-- first, with such a slot for its new order if it is a replacement, and no new order otherwise. Ids
-- were drawn for their tokens before, and the slots in use were within the vector.
pub decode_ouch-InRange :
    (x : Inbound) (c : ℕ) (m : OrderTokenManager)
    → IsOwned m
    → InRange m
    → InRange (decode_ouch x c m).1
      × ((decode_ouch x c m).1.pool_size ≡ m.pool_size)
      × ((c' : ℕ) (t : OrderToken) → get_id c' t (decode_ouch x c m).1 < m.pool_size)
      × IdsFit m.pool_size (decode_ouch x c m).0
decode_ouch-InRange x c m v w =
    let d = decode_ouch-Draws x c m w in
    (
      d.0,
      d.1,
      λ c' t.
          subst (λ k. get_id c' t (decode_ouch x c m).1 < k) d.1
            (get_id-lt c' t (decode_ouch x c m).1 (decode_ouch-IsOwned x c m v) d.0),
      ids_fit x c m (decode_ouch x c m).0 (decode_ouch x c m).1 v refl d,
    )
