-- ===== src/Gateway/Rounds/Totality.antt =====
-- The rounds of src/network/gateway/order_server.h return, whatever the clients send.
use nano_exchange.Base.{ℕ, ◌≡◌, refl, Bool, some, List, [], ◌∷◌, ◌++◌, update_at}
use nano_exchange.Types.{MeClientResponse}
use nano_exchange.Protocol.Ouch.{Outbound}
use nano_exchange.Gateway.Fifo.{RecvClientRequest}
use nano_exchange.Gateway.Server.{Wire, OrderServer, on_recv_finished, drain_responses}
use nano_exchange.Gateway.Framing.{on_recv_total}
use nano_exchange.Gateway.Rounds.{
  Gateway, Callback, received, disconnected, finished, on_callback, on_callbacks, gateway_round,
}

module _ (w : Wire) (sort : List RecvClientRequest → List RecvClientRequest)
    (accepts : ℕ → ℕ → Bool) where
  on_callback_total :
      (c : Callback) (g : Gateway) → (g' : Gateway) × (on_callback w sort accepts c g ≡ some g')
  unfolding on_callback
  on_callback_total (received fd time bytes) g =
      let (r, run, le, same) =
        on_recv_total w sort accepts fd time (g.buffers fd ++ bytes) g.server in
      (record { server = r.1; buffers = update_at fd r.0 g.buffers }, rw run refl)
  on_callback_total (disconnected fd) g = (_, refl)
  on_callback_total (finished pushes) g = (_, refl)

  on_callbacks_total :
      (cs : List Callback) (g : Gateway)
      → (g' : Gateway) × (on_callbacks w sort accepts cs g ≡ some g')
  unfolding on_callbacks
  on_callbacks_total [] g = (g, refl)
  on_callbacks_total (c ∷ cs) g =
      let (g1, run1) = on_callback_total c g in
      let (g2, run2) = on_callbacks_total cs g1 in (g2, rw run1 run2)

  pub gateway_round_total :
      (rs : List (ℕ × MeClientResponse)) (retry : ℕ → Bool) (cs : List Callback) (g : Gateway)
      → (x : List (ℕ × Outbound) × Gateway) × (gateway_round w sort accepts rs retry cs g ≡ some x)
  unfolding gateway_round
  gateway_round_total rs retry cs g =
      let s : OrderServer = on_recv_finished sort retry g.server in
      let (g', run) = on_callbacks_total cs (record g { server = s }) in
      ((drain_responses rs g.server, g'), rw run refl)
