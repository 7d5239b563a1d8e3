-- ===== src/Protocol/Ouch.antt =====
-- src/network/protocol/ouch_processor.h.
use nano_exchange.Base.{ℕ, ◌%◌, ◌^◌, Option, none, some, ◌==◌, if◌then◌else◌}
use nano_exchange.Types.{
  Side, buy, sell, OrderType, good_till_cancel, fill_and_kill, ClientRequestType, ResponseType,
  OrderToken, zero_token, MeClientRequest, MeClientResponse,
}
use nano_exchange.Gateway.Tokens.{OrderTokenManager, register_new_token, get_id}

-- ouch::EnterOrder, ouch::CancelOrder and ouch::ReplaceOrder, the fields that the code reads.
pub record EnterOrder : Type 0 where
  pub order_token : OrderToken
  pub buy_sell_indicator : ℕ
  pub shares : ℕ
  pub stock : ℕ
  pub price : ℕ
  pub time_in_force : ℕ

pub record CancelOrder : Type 0 where
  pub order_token : OrderToken
  pub shares : ℕ

pub record ReplaceOrder : Type 0 where
  pub existing_order_token : OrderToken
  pub replacement_order_token : OrderToken
  pub shares : ℕ
  pub price : ℕ
  pub time_in_force : ℕ

-- What the type byte selects.
pub data Inbound : Type 0 where
  enter : EnterOrder → Inbound
  cancel : CancelOrder → Inbound
  replace : ReplaceOrder → Inbound
  unknown : Inbound

abbrev pub order_type_of : ℕ → OrderType
order_type_of tif = if tif == 0 then fill_and_kill else good_till_cancel

abbrev pub side_of : ℕ → Side
side_of c = if c == b'B' then buy else sell

-- `MEClientRequest{}` with the client's id: every other field is zero.
abbrev pub blank_request : ℕ → MeClientRequest
blank_request client_id = record {
  client_id = client_id;
  client_order_id = 0;
  new_client_order_id = 0;
  price = 0;
  ticker_id = 0;
  qty = 0;
  action = ClientRequestType.new;
  order_type = good_till_cancel;
  side = buy;
  order_token = zero_token;
}

-- `id_to_token_[id].tickerId_`; a slot that was never written holds 0.
abbrev pub ticker_of : ℕ → OrderTokenManager → ℕ
ticker_of id m = elim (m.id_to_token id) [ none ↦ 0 | some s ↦ s.ticker_id ]

-- The request, or `none` where the code returns false, and the token manager after.
unfoldable pub decode_enter :
    EnterOrder → ℕ → OrderTokenManager → Option MeClientRequest × OrderTokenManager
decode_enter msg client_id tm =
    let ticker_id : ℕ = msg.stock % 2 ^ 32 in
    let (id, tm') = register_new_token client_id msg.order_token ticker_id tm in
    if id == 0 then (none, tm') else (
      some (record (blank_request client_id) {
        action = ClientRequestType.new;
        order_type = order_type_of msg.time_in_force;
        ticker_id = ticker_id;
        client_order_id = id;
        order_token = msg.order_token;
        side = side_of msg.buy_sell_indicator;
        price = msg.price;
        qty = msg.shares;
      }),
      tm',
    )

unfoldable pub decode_cancel :
    CancelOrder → ℕ → OrderTokenManager → Option MeClientRequest × OrderTokenManager
decode_cancel msg client_id tm =
    let id : ℕ = get_id client_id msg.order_token tm in
    if id == 0 then (none, tm) else (
      some (record (blank_request client_id) {
        action = ClientRequestType.cancel;
        client_order_id = id;
        order_token = msg.order_token;
        qty = msg.shares;
        ticker_id = ticker_of id tm;
      }),
      tm,
    )

unfoldable pub decode_replace :
    ReplaceOrder → ℕ → OrderTokenManager → Option MeClientRequest × OrderTokenManager
decode_replace msg client_id tm =
    let id : ℕ = get_id client_id msg.existing_order_token tm in
    let ticker_id : ℕ = ticker_of id tm in
    let (new_id, tm') = register_new_token client_id msg.replacement_order_token ticker_id tm in
    if id == 0 then (none, tm) else if new_id == 0 then (none, tm') else (
      some (record (blank_request client_id) {
        action = ClientRequestType.modify;
        qty = msg.shares;
        price = msg.price;
        order_type = order_type_of msg.time_in_force;
        client_order_id = id;
        ticker_id = ticker_id;
        new_client_order_id = new_id;
        order_token = msg.replacement_order_token;
      }),
      tm',
    )

unfoldable pub decode_ouch :
    Inbound → ℕ → OrderTokenManager → Option MeClientRequest × OrderTokenManager
unfolding decode_enter decode_cancel decode_replace
decode_ouch (enter msg) c tm = decode_enter msg c tm
decode_ouch (cancel msg) c tm = decode_cancel msg c tm
decode_ouch (replace msg) c tm = decode_replace msg c tm
decode_ouch unknown c tm = (none, tm)

-- The fields that OrderAccepted and OrderReplaced share.
pub record Echo : Type 0 where
  pub timestamp : ℕ
  pub order_token : OrderToken
  pub buy_sell_indicator : ℕ
  pub shares : ℕ
  pub stock : ℕ
  pub price : ℕ
  pub time_in_force : ℕ
  pub order_reference_number : ℕ

pub data Outbound : Type 0 where
  order_accepted : Echo → Outbound
  -- timestamp, order_token, executed_shares, execution_price, match_number
  order_executed : ℕ → OrderToken → ℕ → ℕ → ℕ → Outbound
  -- timestamp, order_token, decrement_shares, reason
  order_canceled : ℕ → OrderToken → ℕ → ℕ → Outbound
  order_replaced : Echo → Outbound
  -- timestamp, order_token
  cancel_rejected : ℕ → OrderToken → Outbound

abbrev pub indicator_of : Side → ℕ
indicator_of buy = b'B'
indicator_of sell = b'S'

abbrev pub time_in_force_of : OrderType → ℕ
time_in_force_of fill_and_kill = 0
time_in_force_of good_till_cancel = 99998

-- `swap32` takes the low 32 bits.
abbrev pub echo : ℕ → MeClientResponse → Echo
echo ts r = record {
  timestamp = ts;
  order_token = r.order_token;
  buy_sell_indicator = indicator_of r.side;
  shares = r.qty % 2 ^ 32;
  stock = r.ticker_id;
  price = r.price % 2 ^ 32;
  time_in_force = time_in_force_of r.order_type;
  order_reference_number = r.market_order_id;
}

abbrev pub encode_as : ResponseType → ℕ → MeClientResponse → Outbound
encode_as ResponseType.accepted ts r = order_accepted (echo ts r)
encode_as ResponseType.executed ts r =
    order_executed ts r.order_token (r.executed_qty % 2 ^ 32) (r.execution_price % 2 ^ 32)
      r.match_id
encode_as ResponseType.canceled ts r = order_canceled ts r.order_token (r.leaves_qty % 2 ^ 32) b'U'
encode_as ResponseType.modified ts r = order_replaced (echo ts r)
encode_as ResponseType.cancel_rejected ts r = cancel_rejected ts r.order_token

unfoldable pub encode_ouch : ℕ → MeClientResponse → Outbound
encode_ouch ts r = encode_as r.status ts r
