-- ===== src/Market/Requests.antt =====
-- handleClient, serveRequests and the rounds of run of src/network/market/snapshot_stream.h. A
-- connection is what the client sends on it, how the kernel delivers that, and the times of the
-- clock while it is served. `load` is the number that swap64 makes of eight bytes (QuantLink).
use nano_exchange.Base.{
  ℕ, true, false, Option, some, List, [], ◌∷◌, length, take, leb, ◌==◌, if◌then◌else◌, ◌>>=◌,
}
use nano_exchange.Protocol.Itch.{ItchMessage}
use nano_exchange.Market.Replay.{SnapshotUpdate, ReplayAnswer, drain, serve_replay}
use nano_exchange.Market.Snapshot.{SnapshotServer, serve_snapshot}
use nano_exchange.Market.Sockets.{Received, recv_exact}

pub data Reply : Type 0 where
  silent : Reply
  snapshot : List ItchMessage → Reply
  replay : ReplayAnswer → Reply

pub record Connection : Type 0 where
  pub stream : List ℕ
  pub recv : ℕ → ℕ → List ℕ → ℕ
  pub clock : ℕ → ℕ

abbrev pub byte_s : ℕ
byte_s = 0x53

abbrev pub byte_r : ℕ
byte_r = 0x52

-- What follows the second recvExact.
abbrev pub replay_received : (List ℕ → ℕ) → SnapshotServer → Received → Reply × SnapshotServer
replay_received load srv r =
    if r.ok then (replay (serve_replay (load r.bytes) srv.streamer), srv) else (silent, srv)

-- What follows the first recvExact, by the first byte.
unfoldable pub by_first_byte :
    (List ℕ → ℕ) → Connection → SnapshotServer → ℕ → Received → Option (Reply × SnapshotServer)
by_first_byte load c srv b r = elim (b == byte_s) [
  | true ↦ let (buf, srv') = serve_snapshot c.clock srv in some (snapshot buf, srv')
  | false ↦ elim (b == byte_r) [
    | true ↦ recv_exact 8 c.recv r.calls 8 r.rest >>= λ r'. some (replay_received load srv r')
    | false ↦ some (silent, srv)
  ]
]

-- What follows the first recvExact, by what it has read.
abbrev pub on_request :
    (List ℕ → ℕ) → Connection → SnapshotServer → Received → List ℕ → Option (Reply × SnapshotServer)
on_request load c srv r [] = some (silent, srv)
on_request load c srv r (b ∷ bs) = if r.ok then by_first_byte load c srv b r else some (silent, srv)

unfoldable pub handle_client :
    (List ℕ → ℕ) → Connection → SnapshotServer → Option (Reply × SnapshotServer)
unfolding by_first_byte
handle_client load c srv = recv_exact 1 c.recv 0 1 c.stream >>= λ r. on_request load c srv r r.bytes

-- The connections that accept finds, in its order.
unfoldable pub serve_requests :
    (List ℕ → ℕ) → List Connection → SnapshotServer → Option (List Reply × SnapshotServer)
unfolding handle_client
serve_requests load [] srv = some ([], srv)
serve_requests load (c ∷ cs) srv =
    handle_client load c srv >>= λ x. serve_requests load cs x.1 >>= λ y. some (x.0 ∷ y.0, y.1)

-- A round of run: what the queue holds, then the connections that wait.
unfoldable pub serve_round :
    (List ℕ → ℕ)
    → List SnapshotUpdate
    → List Connection
    → SnapshotServer
    → Option (List Reply × SnapshotServer)
unfolding serve_requests
serve_round load us cs srv =
    drain us srv.streamer >>= λ s. serve_requests load cs (record srv { streamer = s })

-- What a client is to be answered, by the bytes that it has sent, however they come in.
abbrev pub reply_to : (List ℕ → ℕ) → (ℕ → ℕ) → List ℕ → SnapshotServer → Reply × SnapshotServer
reply_to load clock [] srv = (silent, srv)
reply_to load clock (b ∷ bs) srv =
    if b == byte_s
    then (let (buf, srv') = serve_snapshot clock srv in (snapshot buf, srv'))
    else if b == byte_r
    then (if leb 8 (length bs)
        then (replay (serve_replay (load (take 8 bs)) srv.streamer), srv)
        else (silent, srv))
    else (silent, srv)
