-- ===== src/Gateway/Rounds.antt =====
-- The rounds of run of src/network/gateway/order_server.h: the drain of the responses, the retry of
-- what the engine's queue has refused, and the callbacks of TCPServer (QuantLink) in the order in
-- which it makes them. `buffers` are the inbound buffers of the sockets.
pub mod Soundness
pub mod Totality
use nano_exchange.Base.{
  ℕ, zero, suc, ◌+◌, ◌^◌, ◌<◌, ◌≤◌, ◌≡◌, refl, sym, ap, ◌∙◌, subst, Bool, Option, none, some, List,
  [], ◌∷◌, ◌++◌, length, update_at, ◌>>=◌, inc64, arith,
}
use mathlib.Core.List.{Perm}
use nano_exchange.Types.{MeClientRequest, MeClientResponse}
use nano_exchange.Protocol.Ouch.{Outbound, decode_ouch}
use nano_exchange.Protocol.Ownership.{decode_ouch-IsOwned}
use nano_exchange.Gateway.Fifo.{
  RecvClientRequest, FifoNdProcess, InOrder, retain_request, publish_pending_orders, IsSound,
}
use nano_exchange.Gateway.Isolation.{IsOwned}
use nano_exchange.Gateway.Sequencing.{retain_request-keeps, publish-in-order}
use nano_exchange.Gateway.Server.{
  Wire, OrderServer, known_client, client_id_of, register_client, retain_decoded, handle_message,
  frame, on_recv, on_recv_finished, on_disconnect, drain_responses,
}
use nano_exchange.Gateway.Framing.{frame_total, on_recv_total}
use nano_exchange.Gateway.Routing.{IsRouted, on_recv-IsRouted, on_disconnect-IsRouted}

-- A callback: bytes that came at a time, a socket that is gone, the end of a batch.
pub data Callback : Type 0 where
  received : ℕ → ℕ → List ℕ → Callback
  disconnected : ℕ → Callback
  finished : (ℕ → Bool) → Callback

pub record Gateway : Type 0 where
  pub server : OrderServer
  pub buffers : ℕ → List ℕ

unfoldable pub on_callback :
    Wire
    → (List RecvClientRequest → List RecvClientRequest)
    → (ℕ → ℕ → Bool)
    → Callback
    → Gateway
    → Option Gateway
on_callback w sort accepts (received fd time bytes) g =
    on_recv w sort accepts fd time (g.buffers fd ++ bytes) g.server >>= λ r.
    some (record { server = r.1; buffers = update_at fd r.0 g.buffers })
on_callback w sort accepts (disconnected fd) g =
    some (record { server = on_disconnect fd g.server; buffers = update_at fd [] g.buffers })
on_callback w sort accepts (finished pushes) g =
    some (record g { server = on_recv_finished sort pushes g.server })

unfoldable pub on_callbacks :
    Wire
    → (List RecvClientRequest → List RecvClientRequest)
    → (ℕ → ℕ → Bool)
    → List Callback
    → Gateway
    → Option Gateway
unfolding on_callback
on_callbacks w sort accepts [] g = some g
on_callbacks w sort accepts (c ∷ cs) g =
    on_callback w sort accepts c g >>= λ g'. on_callbacks w sort accepts cs g'

-- What is sent to which socket, and the gateway after the round; `retry` says which pushes the
-- engine's queue accepts at the start of the round.
unfoldable pub gateway_round :
    Wire
    → (List RecvClientRequest → List RecvClientRequest)
    → (ℕ → ℕ → Bool)
    → List (ℕ × MeClientResponse)
    → (ℕ → Bool)
    → List Callback
    → Gateway
    → Option (List (ℕ × Outbound) × Gateway)
unfolding on_callbacks
gateway_round w sort accepts rs retry cs g =
    on_callbacks w sort accepts cs (record g { server = on_recv_finished sort retry g.server })
    >>= λ g'. some (drain_responses rs g.server, g')
