-- ===== src/Tests/Rounds.antt =====
-- A round of the order server.
use nano_exchange.Base.{ℕ, ◌≡◌, true, some, List, [], ◌∷◌, arith, update_at}
use nano_exchange.Protocol.Ouch.{Outbound}
use nano_exchange.Gateway.Sequencing.{new_fifo-IsSound}
use nano_exchange.Gateway.Isolation.{new_manager-IsOwned}
use nano_exchange.Gateway.Rounds.{
  Gateway, Callback, received, disconnected, finished, gateway_round,
}
use nano_exchange.Gateway.Rounds.Soundness.{IsServerOk, gateway_round-IsServerOk}
use nano_exchange.Tests.Servers.{wire, server, accepting, server-IsRouted}
use nano_exchange.Tests.Gateways.{sort_by_time, sort-perm, sort-InOrder}

-- The descriptor 4 has sent half a message before.
abbrev gateway : Gateway
gateway = record { server = server; buffers = update_at 4 (b'O' ∷ []) (λ fd. []) }

-- The rest of the message, a new socket, and a socket that goes.
abbrev callbacks : List Callback
callbacks =
    received 4 9 (7 ∷ [])
    ∷ received 6 10 (b'O' ∷ 8 ∷ [])
    ∷ finished (λ k. true)
    ∷ disconnected 5
    ∷ []

gateway_round-IsServerOk_example :
    (x : List (ℕ × Outbound) × Gateway) × (gateway_round wire sort_by_time accepting []
        (λ k. true)
        callbacks
        gateway
      ≡ some x)
    × IsServerOk x.1.server
gateway_round-IsServerOk_example =
    gateway_round-IsServerOk wire sort_by_time sort-perm sort-InOrder accepting [] (λ k. true)
      callbacks gateway (omega arith)
      (record {
        routed = server-IsRouted;
        sequencer = new_fifo-IsSound 4;
        owned = new_manager-IsOwned 10;
      })
