-- ===== src/Types.antt =====
-- src/types.h: the messages between the threads, the resting order and the price level.
-- OrderId, Price, ClientId (64 bits), Quantity and TickerId (32 bits) are natural numbers; where
-- the code computes with one, the wrap-around is written out.
use nano_exchange.Base.{ℕ, ◌-◌, ◌^◌, List, [], ◌∷◌}

-- OrderToken: the 14 bytes of the client's OUCH token.
abbrev pub OrderToken : Type 0
OrderToken = List ℕ

-- `OrderToken{}`.
abbrev pub zero_token : OrderToken
zero_token = 0 ∷ 0 ∷ 0 ∷ 0 ∷ 0 ∷ 0 ∷ 0 ∷ 0 ∷ 0 ∷ 0 ∷ 0 ∷ 0 ∷ 0 ∷ 0 ∷ []

abbrev pub price_invalid : ℕ
price_invalid = 2 ^ 64 - 1

abbrev pub order_id_invalid : ℕ
order_id_invalid = 2 ^ 64 - 1

pub data Side : Type 0 where
  buy sell : Side

pub data OrderType : Type 0 where
  good_till_cancel fill_and_kill : OrderType

pub data ClientRequestType : Type 0 where
  new cancel modify : ClientRequestType

pub data ResponseType : Type 0 where
  accepted executed canceled cancel_rejected modified : ResponseType

pub data UpdateType : Type 0 where
  add cancel modify trade snapshot_start clear snapshot_end : UpdateType

pub record MeClientRequest : Type 0 where
  pub client_id : ℕ
  pub client_order_id : ℕ
  pub new_client_order_id : ℕ
  pub price : ℕ
  pub ticker_id : ℕ
  pub qty : ℕ
  pub action : ClientRequestType
  pub order_type : OrderType
  pub side : Side
  pub order_token : OrderToken

pub record MeClientResponse : Type 0 where
  pub client_id : ℕ
  pub client_order_id : ℕ
  pub market_order_id : ℕ
  pub price : ℕ
  pub execution_price : ℕ
  pub match_id : ℕ
  pub ticker_id : ℕ
  pub qty : ℕ
  pub executed_qty : ℕ
  pub leaves_qty : ℕ
  pub side : Side
  pub order_type : OrderType
  pub status : ResponseType
  pub order_token : OrderToken

pub record MeMarketUpdate : Type 0 where
  pub ticker_id : ℕ
  pub market_order_id : ℕ
  pub update_type : UpdateType
  pub side : Side
  pub price : ℕ
  pub qty : ℕ
  pub new_order_id : ℕ
  pub match_id : ℕ

-- `address` is where the object lies, its identity for the pointers that the index holds. The
-- links `next_` and `prev_` are the order's place in the list of its level.
pub record MeOrder : Type 0 where
  pub address : ℕ
  pub client_id : ℕ
  pub client_order_id : ℕ
  pub market_order_id : ℕ
  pub price : ℕ
  pub ticker_id : ℕ
  pub initial_quantity : ℕ
  pub remaining_quantity : ℕ
  pub order_type : OrderType
  pub side : Side
  pub order_token : OrderToken

-- The orders from `head` to `tail`.
pub record PriceLevel : Type 0 where
  pub price : ℕ
  pub orders : List MeOrder

-- What the engine pushes, in the order of the pushes to its two queues.
pub data Event : Type 0 where
  response : MeClientResponse → Event
  update : MeMarketUpdate → Event
