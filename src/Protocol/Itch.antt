-- ===== src/Protocol/Itch.antt =====
-- src/network/protocol/itch_encoder.h.
use nano_exchange.Base.{
  ℕ, ◌+◌, ◌*◌, ◌/◌, ◌%◌, ◌^◌, ◌<◌, ◌≡◌, Option, none, some, List, [], ◌∷◌, arith,
}
use nano_exchange.Types.{Side, buy, sell, UpdateType, MeMarketUpdate}

-- The fields that every message begins with.
pub record Header : Type 0 where
  pub stock_locate : ℕ
  pub tracking_number : ℕ
  pub timestamp : List ℕ

pub data ItchMessage : Type 0 where
  -- order_ref_num, buy_sell, shares, stock, price
  add_order : Header → ℕ → ℕ → ℕ → ℕ → ℕ → ItchMessage
  -- order_ref_num
  order_delete : Header → ℕ → ItchMessage
  -- order_ref_num, executed_shares, match_number
  order_executed : Header → ℕ → ℕ → ℕ → ItchMessage
  -- original_order_ref, new_order_ref, shares, price
  order_replace : Header → ℕ → ℕ → ℕ → ℕ → ItchMessage

-- Six bytes, big-endian; `& 0xFF` is `% 256`.
unfoldable pub write_timestamp : ℕ → List ℕ
write_timestamp ns =
    (ns / 2 ^ 40 % 256)
    ∷ (ns / 2 ^ 32 % 256)
    ∷ (ns / 2 ^ 24 % 256)
    ∷ (ns / 2 ^ 16 % 256)
    ∷ (ns / 2 ^ 8 % 256)
    ∷ (ns % 256)
    ∷ []

abbrev pub get_stock_locate : ℕ → ℕ
get_stock_locate ticker_id = ticker_id % 2 ^ 16

abbrev pub header : ℕ → MeMarketUpdate → Header
header ns u = record {
  stock_locate = get_stock_locate u.ticker_id;
  tracking_number = 0;
  timestamp = write_timestamp ns;
}

abbrev pub buy_sell : Side → ℕ
buy_sell buy = b'B'
buy_sell sell = b'S'

-- `ns` is what the clock says; `none` is the return of 0 bytes.
abbrev pub encode_as : UpdateType → ℕ → MeMarketUpdate → Option ItchMessage
encode_as UpdateType.add ns u = some (
    add_order (header ns u) u.market_order_id (buy_sell u.side) (u.qty % 2 ^ 32) u.ticker_id
      (u.price % 2 ^ 32))
encode_as UpdateType.cancel ns u = some (order_delete (header ns u) u.market_order_id)
encode_as UpdateType.trade ns u =
    some (order_executed (header ns u) u.market_order_id (u.qty % 2 ^ 32) u.match_id)
encode_as UpdateType.modify ns u = some (
    order_replace (header ns u) u.market_order_id u.new_order_id (u.qty % 2 ^ 32)
      (u.price % 2 ^ 32))
encode_as UpdateType.snapshot_start ns u = none
encode_as UpdateType.snapshot_end ns u = none
encode_as UpdateType.clear ns u = none

unfoldable pub encode : ℕ → MeMarketUpdate → Option ItchMessage
encode ns u = encode_as u.update_type ns u

-- The number that six big-endian bytes stand for.
abbrev pub read_timestamp : List ℕ → ℕ
read_timestamp [] = 0
read_timestamp (x ∷ xs) = go x xs
  where
    go : ℕ → List ℕ → ℕ
    go acc [] = acc
    go acc (y ∷ ys) = go (acc * 256 + y) ys

-- A reader of the six bytes gets the time back, if it is below 2 ^ 48.
pub read_timestamp-write : (ns : ℕ) → ns < 2 ^ 48 → read_timestamp (write_timestamp ns) ≡ ns
unfolding write_timestamp
read_timestamp-write ns h = omega arith
