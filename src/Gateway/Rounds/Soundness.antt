-- ===== src/Gateway/Rounds/Soundness.antt =====
-- What the rounds of the order server keep.
use nano_exchange.Base.{
  ℕ, suc, ◌+◌, ◌^◌, ◌<◌, ◌≤◌, ◌≡◌, refl, sym, ◌∙◌, subst, Bool, Option, none, some, List, [], ◌∷◌,
  ◌++◌, length, update_at, arith,
}
use mathlib.Core.List.{Perm}
use nano_exchange.Types.{MeClientRequest, MeClientResponse}
use nano_exchange.Protocol.Ouch.{Outbound, decode_ouch}
use nano_exchange.Protocol.Ownership.{decode_ouch-IsOwned}
use nano_exchange.Gateway.Fifo.{RecvClientRequest, InOrder, IsSound}
use nano_exchange.Gateway.Isolation.{IsOwned}
use nano_exchange.Gateway.Sequencing.{retain_request-keeps, publish-in-order}
use nano_exchange.Gateway.Server.{
  Wire, OrderServer, known_client, client_id_of, register_client, retain_decoded, handle_message,
  on_recv, on_recv_finished, on_disconnect, drain_responses,
}
use nano_exchange.Gateway.Framing.{frame_total, on_recv_total}
use nano_exchange.Gateway.Routing.{IsRouted, on_recv-IsRouted, on_disconnect-IsRouted}
use nano_exchange.Gateway.Rounds.{
  Gateway, Callback, received, disconnected, finished, on_callback, on_callbacks, gateway_round,
}

-- The two maps of clients are inverse, the sequencer is sound, and every token resolves to an id
-- that was drawn for it.
pub record IsServerOk (s : OrderServer) : Type 0 where
  pub routed : IsRouted s
  pub sequencer : IsSound s.fifo
  pub owned : IsOwned s.token_manager

-- What a message keeps.
abbrev Inside : OrderServer → Type 0
Inside s = IsSound s.fifo × IsOwned s.token_manager

module _ (w : Wire) (sort : List RecvClientRequest → List RecvClientRequest)
    (sort-Perm : (rs : List RecvClientRequest) → Perm (sort rs) rs)
    (sort-InOrder : (rs : List RecvClientRequest) → InOrder (sort rs)) where
  finished-Inside :
      (pushes : ℕ → Bool) (s : OrderServer) → Inside s → Inside (on_recv_finished sort pushes s)
  unfolding on_recv_finished
  finished-Inside pushes s v =
      let (_, _, _, sound) = publish-in-order sort sort-Perm sort-InOrder pushes s.fifo v.0 in
      (sound, v.1)

  retained-Inside :
      (accepts : ℕ → ℕ → Bool) (time : ℕ) (x : Option MeClientRequest) (s : OrderServer)
      → Inside s
      → Inside (retain_decoded sort accepts time x s)
  unfolding retain_decoded
  retained-Inside accepts time none s v = v
  retained-Inside accepts time (some r) s v =
      let (_, _, _, sound) =
        retain_request-keeps sort sort-Perm sort-InOrder (accepts s.retained) time r s.fifo v.0 in
      (sound, v.1)

  message-Inside :
      (accepts : ℕ → ℕ → Bool) (time cid : ℕ) (bytes : List ℕ) (s : OrderServer)
      → Inside s
      → Inside (handle_message w sort accepts time cid bytes s)
  unfolding handle_message
  message-Inside accepts time cid bytes s v =
      retained-Inside accepts time (decode_ouch (w.read bytes) cid s.token_manager).0 _
        (v.0, decode_ouch-IsOwned (w.read bytes) cid s.token_manager v.1)

  known_client-Inside : (fd : ℕ) (s : OrderServer) → Inside s → Inside (known_client fd s)
  unfolding register_client
  known_client-Inside fd s v = go (s.fd_to_client_id fd) refl
    where
      go : (x : Option ℕ) → s.fd_to_client_id fd ≡ x → Inside (known_client fd s)
      go none e = rw (e, known_client) v
      go (some c) e = rw (e, known_client) v

  known_client-next :
      (fd : ℕ) (s : OrderServer) → (known_client fd s).next_client_id ≤ s.next_client_id + 1
  unfolding register_client
  known_client-next fd s = go (s.fd_to_client_id fd) refl
    where
      go :
          (x : Option ℕ)
          → s.fd_to_client_id fd ≡ x
          → (known_client fd s).next_client_id ≤ s.next_client_id + 1
      go none e = rw (e, known_client) (omega arith)
      go (some c) e = rw (e, known_client) (omega arith)

  -- What a callback leaves of a server that has room for one more client.
  abbrev CallbackOk : OrderServer → OrderServer → Type 0
  CallbackOk s s' = IsServerOk s' × (s'.next_client_id ≤ s.next_client_id + 1)

  on_recv-CallbackOk :
      (accepts : ℕ → ℕ → Bool) (fd time : ℕ) (bytes : List ℕ) (s : OrderServer)
      → s.next_client_id + 1 < 2 ^ 64
      → IsServerOk s
      → (r : List ℕ × OrderServer) × (on_recv w sort accepts fd time bytes s ≡ some r)
        × CallbackOk s r.1
  on_recv-CallbackOk accepts fd time bytes s fits v =
      let (r, run, routed) = on_recv-IsRouted w sort accepts fd time bytes s fits v.routed in
      let s0 : OrderServer = known_client fd s in
      let (r1, run1, le, same) = on_recv_total w sort accepts fd time bytes s in
      let (r2, run2, _, inside) =
        frame_total w (handle_message w sort accepts time (client_id_of fd s0)) Inside
          (message-Inside accepts time (client_id_of fd s0)) (suc (length bytes)) bytes s0
          (omega arith) (known_client-Inside fd s (v.sequencer, v.owned)) in
      let e1 : some r1 ≡ some r = sym run1 ∙ run in
      let e2 : some r2 ≡ some r = unfold on_recv in (sym run2 ∙ run) in
      let f1 : r1 ≡ r = cc in
      let f2 : r2 ≡ r = cc in
      let kept : Inside r.1 = subst (λ x. Inside x.1) f2 inside in
      let next : r1.1.next_client_id ≤ s.next_client_id + 1 =
        subst (λ n. n ≤ s.next_client_id + 1) (sym same.next) (known_client-next fd s) in
      (
        r,
        run,
        (
          record { routed = routed; sequencer = kept.0; owned = kept.1 },
          subst (λ x. x.1.next_client_id ≤ s.next_client_id + 1) f1 next,
        ),
      )

  finished-CallbackOk :
      (pushes : ℕ → Bool) (s : OrderServer)
      → IsServerOk s
      → CallbackOk s (on_recv_finished sort pushes s)
  finished-CallbackOk pushes s v =
      let inside : Inside (on_recv_finished sort pushes s) =
        finished-Inside pushes s (v.sequencer, v.owned) in
      unfold on_recv_finished in
      (
        record {
          routed = record { routed = v.routed.routed; owned = v.routed.owned };
          sequencer = inside.0;
          owned = inside.1;
        },
        omega arith,
      )

  disconnected-CallbackOk :
      (fd : ℕ) (s : OrderServer) → IsServerOk s → CallbackOk s (on_disconnect fd s)
  unfolding on_disconnect
  disconnected-CallbackOk fd s v =
      let (routed, _, _) = on_disconnect-IsRouted fd s v.routed in
      let (inside, le) = kept (s.fd_to_client_id fd) refl in
      (record { routed = routed; sequencer = inside.0; owned = inside.1 }, le)
    where
      kept :
          (x : Option ℕ)
          → s.fd_to_client_id fd ≡ x
          → Inside (on_disconnect fd s)
            × ((on_disconnect fd s).next_client_id ≤ s.next_client_id + 1)
      kept none e = rw (e, on_disconnect) ((v.sequencer, v.owned), omega arith)
      kept (some c) e = rw (e, on_disconnect) ((v.sequencer, v.owned), omega arith)

  on_callback-CallbackOk :
      (accepts : ℕ → ℕ → Bool) (c : Callback) (g : Gateway)
      → g.server.next_client_id + 1 < 2 ^ 64
      → IsServerOk g.server
      → (g' : Gateway) × (on_callback w sort accepts c g ≡ some g') × CallbackOk g.server g'.server
  unfolding on_callback
  on_callback-CallbackOk accepts (received fd time bytes) g fits v =
      let (r, run, ok) =
        on_recv-CallbackOk accepts fd time (g.buffers fd ++ bytes) g.server fits v in
      (record { server = r.1; buffers = update_at fd r.0 g.buffers }, rw run refl, ok)
  on_callback-CallbackOk accepts (disconnected fd) g fits v =
      (_, refl, disconnected-CallbackOk fd g.server v)
  on_callback-CallbackOk accepts (finished pushes) g fits v =
      (_, refl, finished-CallbackOk pushes g.server v)

  on_callbacks-IsServerOk :
      (accepts : ℕ → ℕ → Bool) (cs : List Callback) (g : Gateway)
      → g.server.next_client_id + length cs < 2 ^ 64
      → IsServerOk g.server
      → (g' : Gateway) × (on_callbacks w sort accepts cs g ≡ some g') × IsServerOk g'.server
  unfolding on_callbacks
  on_callbacks-IsServerOk accepts [] g fits v = (g, refl, v)
  on_callbacks-IsServerOk accepts (c ∷ cs) g fits v =
      let (g1, run1, (v1, le)) = on_callback-CallbackOk accepts c g (omega arith) v in
      let (g2, run2, v2) = on_callbacks-IsServerOk accepts cs g1 (omega arith) v1 in
      (g2, rw run1 run2, v2)

  -- A round of the order server returns, whatever callbacks it makes and whatever the engine's
  -- queue accepts, and keeps the server sound: the two maps of clients inverse, the sequencer
  -- sound, and every token resolving to an id that was drawn for it. The client ids last for the
  -- callbacks of the round, and the sort permutes and orders.
  pub gateway_round-IsServerOk :
      (accepts : ℕ → ℕ → Bool) (rs : List (ℕ × MeClientResponse)) (retry : ℕ → Bool)
      (cs : List Callback) (g : Gateway)
      → g.server.next_client_id + length cs < 2 ^ 64
      → IsServerOk g.server
      → (x : List (ℕ × Outbound) × Gateway) × (gateway_round w sort accepts rs retry cs g ≡ some x)
        × IsServerOk x.1.server
  unfolding gateway_round
  gateway_round-IsServerOk accepts rs retry cs g fits v =
      let s : OrderServer = on_recv_finished sort retry g.server in
      let fits' : s.next_client_id + length cs < 2 ^ 64 = unfold on_recv_finished in fits in
      let (g', run, ok) =
        on_callbacks-IsServerOk accepts cs (record g { server = s }) fits'
          (finished-CallbackOk retry g.server v).0 in
      ((drain_responses rs g.server, g'), rw run refl, ok)
