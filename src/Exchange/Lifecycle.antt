-- ===== src/Exchange/Lifecycle.antt =====
-- `start` and `stop` of src/engine/matching_engine.h, src/network/gateway/order_server.h,
-- src/network/market/marketdata_publisher.h and snapshot_stream.h, and the order of the calls in
-- src/main.cpp. A thread is the flag that its loop tests.
use nano_exchange.Base.{Bool, true, false, List, [], ◌∷◌, ◌++◌}

pub data Thread : Type 0 where
  gateway engine publisher streamer : Thread

-- `run_` of each.
pub record Running : Type 0 where
  pub gateway : Bool
  pub engine : Bool
  pub publisher : Bool
  pub streamer : Bool

pub data Action : Type 0 where
  start : Thread → Action
  stop : Thread → Action

-- What `start` and `stop` of each part do to the threads.

abbrev pub streamer_start : List Action
streamer_start = start streamer ∷ []

abbrev pub streamer_stop : List Action
streamer_stop = stop streamer ∷ []

-- The publisher starts its streamer first, and stops it last.
abbrev pub publisher_start : List Action
publisher_start = streamer_start ++ start publisher ∷ []

abbrev pub publisher_stop : List Action
publisher_stop = stop publisher ∷ streamer_stop

abbrev pub engine_start : List Action
engine_start = start engine ∷ []

abbrev pub engine_stop : List Action
engine_stop = stop engine ∷ []

abbrev pub gateway_start : List Action
gateway_start = start gateway ∷ []

abbrev pub gateway_stop : List Action
gateway_stop = stop gateway ∷ []

-- The calls of main before its wait, and after it.

abbrev pub start_calls : List Action
start_calls = publisher_start ++ engine_start ++ gateway_start

abbrev pub stop_calls : List Action
stop_calls = gateway_stop ++ engine_stop ++ publisher_stop

abbrev pub set_running : Thread → Bool → Running → Running
set_running gateway v r = record r { gateway = v }
set_running engine v r = record r { engine = v }
set_running publisher v r = record r { publisher = v }
set_running streamer v r = record r { streamer = v }

abbrev pub perform : Action → Running → Running
perform (start t) r = set_running t true r
perform (stop t) r = set_running t false r
