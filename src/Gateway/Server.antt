-- ===== src/Gateway/Server.antt =====
-- src/network/gateway/order_server.h: the handlers of the order server. A socket (QuantLink) is its
-- file descriptor, with the bytes of its inbound buffer as an argument of the handler and those
-- left in it as a result. Of the calls of the engine's queue, `accepts n k` is what the k-th `push`
-- returns while the n-th retained request is handled.
use nano_exchange.Base.{
  ℕ, zero, suc, ◌+◌, Bool, true, false, Option, none, some, List, [], ◌∷◌, ◌++◌, length, take, drop,
  ltb, ◌==◌, if◌then◌else◌, inc64,
}
use nano_exchange.Types.{MeClientRequest, MeClientResponse}
use nano_exchange.Gateway.Fifo.{
  RecvClientRequest, FifoNdProcess, retain_request, publish_pending_orders,
}
use nano_exchange.Gateway.Tokens.{OrderTokenManager}
use nano_exchange.Protocol.Ouch.{Inbound, decode_ouch, Outbound, encode_ouch}

-- QuantLink's wire format: the type bytes, the sizes of the messages, and what the bytes of a
-- message say.
pub record Wire : Type 0 where
  pub enter_order : ℕ
  pub cancel_order : ℕ
  pub replace_order : ℕ
  pub enter_size : ℕ
  pub cancel_size : ℕ
  pub replace_size : ℕ
  pub read : List ℕ → Inbound

abbrev pub ouch_msg_size : Wire → ℕ → ℕ
ouch_msg_size w t =
    if t == w.enter_order
    then w.enter_size
    else if t == w.cancel_order
    then w.cancel_size
    else if t == w.replace_order
    then w.replace_size
    else 0

-- `while (offset < bufLen)` of onRecv, on the bytes from `offset` on and on fuel; `step` handles
-- the bytes of one complete message. The bytes left are those that the compaction moves to the
-- front.
unfoldable pub frame {ℓ} :
    {A : Type ℓ} → ℕ → Wire → (List ℕ → A → A) → List ℕ → A → Option (List ℕ × A)
frame zero w step bytes a = none
frame (suc n) w step [] a = some ([], a)
frame (suc n) w step (t ∷ ts) a = elim (ouch_msg_size w t == 0) [
  | true ↦ frame n w step ts a
  | false ↦ elim (ltb (suc (length ts)) (ouch_msg_size w t)) [
    | true ↦ some (t ∷ ts, a)
    | false ↦
        frame n w step (drop (ouch_msg_size w t) (t ∷ ts))
          (step (take (ouch_msg_size w t) (t ∷ ts)) a)
  ]
]

-- `published` is what has been pushed to the engine, `retained` how many requests were retained.
pub record OrderServer : Type 0 where
  pub fifo : FifoNdProcess
  pub token_manager : OrderTokenManager
  pub fd_to_client_id : ℕ → Option ℕ
  pub client_to_socket : ℕ → Option ℕ
  pub next_client_id : ℕ
  pub published : List RecvClientRequest
  pub retained : ℕ

-- `m[k] = v`, or the erasure of `k`.
abbrev pub set_at : ℕ → Option ℕ → (ℕ → Option ℕ) → ℕ → Option ℕ
set_at k v f j = if j == k then v else f j

unfoldable pub register_client : ℕ → OrderServer → OrderServer
register_client fd s = record s {
  next_client_id = inc64 s.next_client_id;
  fd_to_client_id = set_at fd (some s.next_client_id) s.fd_to_client_id;
  client_to_socket = set_at s.next_client_id (some fd) s.client_to_socket;
}

abbrev pub known_client : ℕ → OrderServer → OrderServer
known_client fd s = elim (s.fd_to_client_id fd) [ none ↦ register_client fd s | some c ↦ s ]

-- `fdToClientId_[fd]`.
abbrev pub client_id_of : ℕ → OrderServer → ℕ
client_id_of fd s = elim (s.fd_to_client_id fd) [ none ↦ 0 | some c ↦ c ]

-- A request that decodes is retained.
unfoldable pub retain_decoded :
    (List RecvClientRequest → List RecvClientRequest)
    → (ℕ → ℕ → Bool)
    → ℕ
    → Option MeClientRequest
    → OrderServer
    → OrderServer
retain_decoded sort accepts time none s = s
retain_decoded sort accepts time (some r) s =
    let (added, out, f) = retain_request sort (accepts s.retained) time r s.fifo in
    record s { fifo = f; published = s.published ++ out; retained = s.retained + 1 }

-- One complete message of a client.
unfoldable pub handle_message :
    Wire
    → (List RecvClientRequest → List RecvClientRequest)
    → (ℕ → ℕ → Bool)
    → ℕ
    → ℕ
    → List ℕ
    → OrderServer
    → OrderServer
handle_message w sort accepts time cid bytes s =
    let (r, tm) = decode_ouch (w.read bytes) cid s.token_manager in
    retain_decoded sort accepts time r (record s { token_manager = tm })

-- Each round of the loop takes a byte at least.
unfoldable pub on_recv :
    Wire
    → (List RecvClientRequest → List RecvClientRequest)
    → (ℕ → ℕ → Bool)
    → ℕ
    → ℕ
    → List ℕ
    → OrderServer
    → Option (List ℕ × OrderServer)
on_recv w sort accepts fd time bytes s =
    let s' : OrderServer = known_client fd s in
    frame (suc (length bytes)) w (handle_message w sort accepts time (client_id_of fd s')) bytes s'

unfoldable pub on_recv_finished :
    (List RecvClientRequest → List RecvClientRequest) → (ℕ → Bool) → OrderServer → OrderServer
on_recv_finished sort accepts s =
    let (out, f) = publish_pending_orders sort accepts s.fifo in
    record s { fifo = f; published = s.published ++ out }

unfoldable pub on_disconnect : ℕ → OrderServer → OrderServer
on_disconnect fd s = elim (s.fd_to_client_id fd) [
  | none ↦ s
  | some c ↦ record s {
    client_to_socket = set_at c none s.client_to_socket;
    fd_to_client_id = set_at fd none s.fd_to_client_id;
  }
]

-- The responses that the engine's queue delivers, each with the time at which it is encoded; the
-- result is what is sent to which socket.
unfoldable pub drain_responses : List (ℕ × MeClientResponse) → OrderServer → List (ℕ × Outbound)
drain_responses [] s = []
drain_responses ((now, r) ∷ rs) s =
    let rest = drain_responses rs s in
    elim (s.client_to_socket r.client_id) [ none ↦ rest | some fd ↦ (fd, encode_ouch now r) ∷ rest ]
