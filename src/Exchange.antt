-- ===== src/Exchange.antt =====
-- src/main.cpp: the four threads of the exchange, the queues between them, and the order in which
-- they are started and stopped. A turn is one round of a thread's loop, and a run is a sequence of
-- turns in any order. The queues (QuantLink) are first in, first out; that pushBlocking waits
-- for room is not modelled. The system's calls come as the arguments of the turns.
pub mod Setup
pub mod Lifecycle
pub mod Pending
pub mod Consistency
pub mod Schedules
pub mod Progress
use nano_exchange.Base.{
  ℕ, zero, suc, Bool, true, false, Option, none, some, List, [], ◌∷◌, ◌++◌, map, if◌then◌else◌,
  ◌>>=◌, inc64,
}
use nano_exchange.Types.{MeClientRequest, MeClientResponse, MeMarketUpdate, Event, response, update}
use nano_exchange.Engine.{MatchingEngine, new_engine, process_client_request}
use nano_exchange.Gateway.Fifo.{RecvClientRequest, new_fifo}
use nano_exchange.Gateway.Tokens.{new_manager}
use nano_exchange.Gateway.Server.{Wire}
use nano_exchange.Gateway.Rounds.{Callback, Gateway, gateway_round}
use nano_exchange.Protocol.Itch.{ItchMessage}
use nano_exchange.Protocol.Ouch.{Outbound}
use nano_exchange.Market.Replay.{SnapshotUpdate, ReplayEntry, drain_one}
use nano_exchange.Market.Publisher.{publish_one, queued, datagram, new_streamer}
use nano_exchange.Market.Snapshot.{SnapshotServer}
use nano_exchange.Market.Requests.{Connection, Reply, serve_requests}
use nano_exchange.Exchange.Lifecycle.{Running, Action, perform, start_calls, stop_calls}
use nano_exchange.Exchange.Setup.{num_tickers, fifo_pending, token_pool_size}

-- What the parts call of QuantLink and the standard library.
pub record Library : Type 0 where
  pub ouch : Wire
  pub itch : ItchMessage → List ℕ
  pub sort : List RecvClientRequest → List RecvClientRequest
  pub load : List ℕ → ℕ

-- The queues, the threads' states, what has gone out, and the calls that main has still to make.
pub record Exchange : Type 0 where
  pub request_q : List MeClientRequest
  pub response_q : List MeClientResponse
  pub market_update_q : List MeMarketUpdate
  pub streamer_q : List SnapshotUpdate
  pub gateway : Gateway
  pub engine : MatchingEngine
  pub next_seq_num : ℕ
  pub streamer : SnapshotServer
  pub sent : List (ℕ × Outbound)
  pub datagrams : List ReplayEntry
  pub replies : List Reply
  pub running : Running
  pub calls : List Action

abbrev pub new_gateway : ℕ → ℕ → Gateway
unfolding new_fifo new_manager
new_gateway max_pending pool_size = record {
  server = record {
    fifo = new_fifo max_pending;
    token_manager = new_manager pool_size;
    fd_to_client_id = λ fd. none;
    client_to_socket = λ c. none;
    next_client_id = 1;
    published = [];
    retained = 0;
  };
  buffers = λ fd. [];
}

abbrev pub new_exchange : ℕ → ℕ → ℕ → Exchange
new_exchange tickers max_pending pool_size = record {
  request_q = [];
  response_q = [];
  market_update_q = [];
  streamer_q = [];
  gateway = new_gateway max_pending pool_size;
  engine = new_engine tickers;
  next_seq_num = 1;
  streamer = record { streamer = new_streamer tickers; snapshot_buf = [] };
  sent = [];
  datagrams = [];
  replies = [];
  running = record { gateway = false; engine = false; publisher = false; streamer = false };
  calls = start_calls ++ stop_calls;
}

-- The exchange that main sets up.
abbrev pub main_exchange : Exchange
main_exchange = new_exchange num_tickers fifo_pending token_pool_size

-- The two output queues of the engine.

abbrev pub responses_of : List Event → List MeClientResponse
responses_of [] = []
responses_of (response r ∷ es) = r ∷ responses_of es
responses_of (update u ∷ es) = responses_of es

abbrev pub updates_of : List Event → List MeMarketUpdate
updates_of [] = []
updates_of (response r ∷ es) = updates_of es
updates_of (update u ∷ es) = u ∷ updates_of es

-- Each response with the time at which it is encoded.
abbrev pub timed : (ℕ → ℕ) → ℕ → List MeClientResponse → List (ℕ × MeClientResponse)
timed now k [] = []
timed now k (r ∷ rs) = (now k, r) ∷ timed now (suc k) rs

-- A round of OrderServer::run: `published` of the gateway is what it pushes in the round.

abbrev pub after_gateway : Exchange → List (ℕ × Outbound) × Gateway → Exchange
after_gateway x (out, g) = record x {
  response_q = [];
  gateway = g;
  request_q = x.request_q ++ map (λ r. r.request) g.server.published;
  sent = x.sent ++ out;
}

unfoldable pub gateway_turn :
    Library → (ℕ → ℕ) → (ℕ → ℕ → Bool) → (ℕ → Bool) → List Callback → Exchange → Option Exchange
gateway_turn lib now accepts retry cs x =
    let g : Gateway = record x.gateway { server = record x.gateway.server { published = [] } } in
    gateway_round lib.ouch lib.sort accepts (timed now 0 x.response_q) retry cs g >>= λ y.
    some (after_gateway x y)

-- A round of MatchingEngine::run on what its queue holds: `events` of the engine is what it pushes
-- in the round.
unfoldable pub engine_takes : ℕ → List MeClientRequest → Exchange → Option Exchange
engine_takes address [] x = some x
engine_takes address (r ∷ rs) x =
    process_client_request address r (record x.engine { events = [] }) >>= λ e. some (record x {
      request_q = rs;
      engine = e;
      response_q = x.response_q ++ responses_of e.events;
      market_update_q = x.market_update_q ++ updates_of e.events;
    })

-- A round of MarketDataPublisher::run.
unfoldable pub publisher_takes : Library → ℕ → List MeMarketUpdate → Exchange → Exchange
publisher_takes lib ns [] x = x
publisher_takes lib ns (u ∷ us) x =
    let snaps : List SnapshotUpdate = queued (publish_one lib.itch ns u x.next_seq_num) [] in
    record x {
      market_update_q = us;
      streamer_q = x.streamer_q ++ snaps;
      next_seq_num = inc64 x.next_seq_num;
      datagrams = x.datagrams ++ map datagram snaps;
    }

-- A round of the drain in SnapshotStreamer::run.
unfoldable pub streamer_takes : List SnapshotUpdate → Exchange → Option Exchange
streamer_takes [] x = some x
streamer_takes (u ∷ us) x = drain_one u x.streamer.streamer >>= λ s.
    some (record x { streamer_q = us; streamer = record x.streamer { streamer = s } })

-- The connections that SnapshotStreamer::run serves after a drain.
unfoldable pub serve_turn : Library → List Connection → Exchange → Option Exchange
serve_turn lib cs x = serve_requests lib.load cs x.streamer >>= λ y.
    some (record x { streamer = y.1; replies = x.replies ++ y.0 })

-- The next call of main.
unfoldable pub main_takes : List Action → Exchange → Exchange
main_takes [] x = x
main_takes (c ∷ cs) x = record x { running = perform c x.running; calls = cs }

pub data Turn : Type 0 where
  gateway_runs : (ℕ → ℕ) → (ℕ → ℕ → Bool) → (ℕ → Bool) → List Callback → Turn
  engine_runs : ℕ → Turn
  publisher_runs : ℕ → Turn
  streamer_drains : Turn
  streamer_serves : List Connection → Turn
  main_calls_next : Turn

-- A thread whose `run_` is not set does nothing.
unfoldable pub take_turn : Library → Turn → Exchange → Option Exchange
take_turn lib (gateway_runs now accepts retry cs) x =
    if x.running.gateway then gateway_turn lib now accepts retry cs x else some x
take_turn lib (engine_runs address) x =
    if x.running.engine then engine_takes address x.request_q x else some x
take_turn lib (publisher_runs ns) x =
    if x.running.publisher then some (publisher_takes lib ns x.market_update_q x) else some x
take_turn lib streamer_drains x =
    if x.running.streamer then streamer_takes x.streamer_q x else some x
take_turn lib (streamer_serves cs) x = if x.running.streamer then serve_turn lib cs x else some x
take_turn lib main_calls_next x = some (main_takes x.calls x)

-- A schedule of turns.
unfoldable pub take_turns : Library → List Turn → Exchange → Option Exchange
unfolding take_turn
take_turns lib [] x = some x
take_turns lib (t ∷ ts) x = take_turn lib t x >>= λ x'. take_turns lib ts x'
