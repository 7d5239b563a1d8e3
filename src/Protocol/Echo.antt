-- ===== src/Protocol/Echo.antt =====
-- From decodeOuch of src/network/protocol/ouch_processor.h through the book and back to encodeOuch:
-- what a client is told of an order that it has entered.
use nano_exchange.Base.{
  ℕ, ◌%◌, ◌^◌, ◌<◌, ◌≡◌, ◌⊎◌, refl, sym, subst, inl, inr, none, some, List, ◌∷◌, ◌==◌,
  if◌then◌else◌, Bool-cases, arith,
}
use nano_exchange.Types.{
  ClientRequestType, ResponseType, order_id_invalid, MeClientRequest, MeClientResponse, Event,
  response,
}
use nano_exchange.Gateway.Tokens.{OrderTokenManager, register_new_token}
use nano_exchange.Protocol.Ouch.{
  EnterOrder, enter, decode_ouch, decode_enter, Outbound, order_accepted, encode_ouch, indicator_of,
  side_of, order_type_of, time_in_force_of, blank_request,
}
use nano_exchange.MapBook.{MeOrderBook, Incoming, own_response}
use nano_exchange.MapBook.Operations.{Outcome, add_incoming, add_order, bump, incoming, add_outcome}
use nano_exchange.MapBook.Loop.{match_order_total}
use nano_exchange.MapBook.Valid.{IsValid, valid_from}
use nano_exchange.MapBook.Invariant.{bump-IsValid}
use nano_exchange.Engine.{dispatch}

-- The fields of the message are as wide as the exchange answers them, and its side is one of two.
pub record IsPlain (msg : EnterOrder) : Type 0 where
  pub shares_fit : msg.shares < 2 ^ 32
  pub price_fits : msg.price < 2 ^ 32
  pub stock_fits : msg.stock < 2 ^ 32
  pub side_known : (msg.buy_sell_indicator ≡ b'B') ⊎ (msg.buy_sell_indicator ≡ b'S')

-- The message that repeats an order back, with the exchange's own number for it.
abbrev pub repeated : ℕ → ℕ → EnterOrder → Outbound
repeated ts number msg = order_accepted (record {
  timestamp = ts;
  order_token = msg.order_token;
  buy_sell_indicator = msg.buy_sell_indicator;
  shares = msg.shares;
  stock = msg.stock;
  price = msg.price;
  time_in_force = if msg.time_in_force == 0 then 0 else 99998;
  order_reference_number = number;
})

indicator-side : (c : ℕ) → (c ≡ b'B') ⊎ (c ≡ b'S') → indicator_of (side_of c) ≡ c
indicator-side c (inl e) = rw e refl
indicator-side c (inr e) = rw e refl

time_in_force-order_type :
    (t : ℕ) → time_in_force_of (order_type_of t) ≡ (if t == 0 then 0 else 99998)
time_in_force-order_type t = elim (Bool-cases (t == 0)) [ inl e ↦ rw e refl | inr e ↦ rw e refl ]

-- The request of an order that is decoded.
abbrev entered : EnterOrder → ℕ → ℕ → MeClientRequest
entered msg c id = record (blank_request c) {
  order_type = order_type_of msg.time_in_force;
  ticker_id = msg.stock % 2 ^ 32;
  client_order_id = id;
  order_token = msg.order_token;
  side = side_of msg.buy_sell_indicator;
  price = msg.price;
  qty = msg.shares;
}

decode_enter-eq_some :
    (msg : EnterOrder) (c : ℕ) (tm : OrderTokenManager) (r : MeClientRequest)
    → (decode_enter msg c tm).0 ≡ some r
    → (id : ℕ) × (r ≡ entered msg c id)
unfolding decode_enter
decode_enter-eq_some msg c tm r h =
    let id : ℕ = (register_new_token c msg.order_token (msg.stock % 2 ^ 32) tm).0 in
    elim (Bool-cases (id == 0)) [
      | inl e ↦ let f : none ≡ some r = rw e at h in absurd (cc)
      | inr e ↦ let f : some (entered msg c id) ≡ some r = rw e at h in (id, cc)
    ]

-- The answer to the request, with the fields as they are narrowed on the way.
entered-accept :
    (msg : EnterOrder) (c id a nmid ts : ℕ) (b : MeOrderBook)
    → IsPlain msg
    → IsValid b
    → (o : Outcome) × (told : MeClientResponse) × (rest : List Event) × (dispatch
          ClientRequestType.new a
          (entered msg c id)
          nmid
          b
        ≡ some o)
      × (o.events ≡ response told ∷ rest)
      × (told.client_id ≡ c)
      × (encode_ouch ts told ≡ repeated ts b.next_market_order_id msg)
unfolding dispatch add_order add_incoming encode_ouch
entered-accept msg c id a nmid ts b p v =
    let r : MeClientRequest = entered msg c id in
    let i : Incoming =
      incoming r.ticker_id c id r.order_type r.price r.qty r.side r.order_token b in
    let (t, run, _, _) =
      match_order_total i nmid (bump b)
        (valid_from i.side (bump b) (bump-IsValid b v)).opposite_ok in
    let shares : msg.shares % 2 ^ 32 ≡ msg.shares = let h = p.shares_fit in omega arith in
    let stock : msg.stock % 2 ^ 32 ≡ msg.stock = let h = p.stock_fits in omega arith in
    let price : msg.price % 2 ^ 32 ≡ msg.price = let h = p.price_fits in omega arith in
    (
      add_outcome a i t,
      own_response i ResponseType.accepted 0 i.price i.initial_quantity order_id_invalid,
      _,
      rw run refl,
      refl,
      refl,
      rw
          (
            shares,
            stock,
            price,
            indicator-side msg.buy_sell_indicator p.side_known,
            time_in_force-order_type msg.time_in_force,
          )
          refl,
    )

-- A client that enters an order is answered first of all, and told of the order what it said, if
-- its shares, price and stock are each less than 2 ^ 32 and its indicator is a B or an S: the
-- request that its message decodes to, if it decodes, is processed by a valid book, the first push
-- is to the client, and encodes to an OrderAccepted with the token, side, shares, stock and price
-- of the message, its time in force as the exchange takes it, and the book's next number as
-- reference.
pub enter-accept :
    (msg : EnterOrder) (c : ℕ) (tm : OrderTokenManager) (r : MeClientRequest) (a nmid ts : ℕ)
    (b : MeOrderBook)
    → IsPlain msg
    → (decode_ouch (enter msg) c tm).0 ≡ some r
    → IsValid b
    → (o : Outcome) × (told : MeClientResponse) × (rest : List Event) × (dispatch r.action a r nmid
          b
        ≡ some o)
      × (o.events ≡ response told ∷ rest)
      × (told.client_id ≡ c)
      × (encode_ouch ts told ≡ repeated ts b.next_market_order_id msg)
unfolding decode_ouch
enter-accept msg c tm r a nmid ts b p h v =
    let (id, e) = decode_enter-eq_some msg c tm r h in
    subst
      (λ x.
        (o : Outcome) × (told : MeClientResponse) × (rest : List Event) × (dispatch x.action a x
            nmid b
          ≡ some o)
        × (o.events ≡ response told ∷ rest)
        × (told.client_id ≡ c)
        × (encode_ouch ts told ≡ repeated ts b.next_market_order_id msg))
      (sym e) (entered-accept msg c id a nmid ts b p v)
