-- ===== src/Gateway/Routing.antt =====
-- The order server's two maps agree, and a response reaches the client that it is about.
use nano_exchange.Base.{
  ℕ, ◌+◌, ◌^◌, ◌<◌, ◌≡◌, ◌≢◌, ◌⊎◌, refl, sym, ap, subst, ◌∙◌, Bool, true, false, inl, inr, Option,
  none, some, List, [], ◌∷◌, ◌==◌, ==_iff, ==_refl, if◌then◌else◌, Bool-cases, inc64, arith,
}
use nano_exchange.Types.{MeClientResponse}
use nano_exchange.Protocol.Ouch.{Outbound, encode_ouch}
use nano_exchange.Gateway.Fifo.{RecvClientRequest}
use nano_exchange.Gateway.Server.{
  Wire, OrderServer, set_at, known_client, register_client, on_recv, on_disconnect, drain_responses,
}
use nano_exchange.Gateway.Framing.{on_recv_total}

-- The socket of a client and the client of a socket are inverse, and the next id is not in use.
pub record IsRouted (s : OrderServer) : Type 0 where
  pub routed :
      (fd c : ℕ)
      → s.fd_to_client_id fd ≡ some c
      → (s.client_to_socket c ≡ some fd) × (c < s.next_client_id)
  pub owned : (c fd : ℕ) → s.client_to_socket c ≡ some fd → s.fd_to_client_id fd ≡ some c

set_at-cases :
    (k : ℕ) (v : Option ℕ) (f : ℕ → Option ℕ) (j : ℕ)
    → ((j ≡ k) × (set_at k v f j ≡ v)) ⊎ ((j ≢ k) × (set_at k v f j ≡ f j))
set_at-cases k v f j = elim (Bool-cases (j == k)) [
  | inl e ↦ inl ((==_iff j k).0 e, rw (e, set_at) refl)
  | inr e ↦ inr (ground arith, rw (e, set_at) refl)
]

register-IsRouted :
    (fd : ℕ) (s : OrderServer)
    → s.fd_to_client_id fd ≡ none
    → s.next_client_id + 1 < 2 ^ 64
    → IsRouted s
    → IsRouted (register_client fd s)
unfolding register_client
register-IsRouted fd s new fits v = record { routed = routed; owned = owned }
  where
    routed :
        (f c : ℕ)
        → set_at fd (some s.next_client_id) s.fd_to_client_id f ≡ some c
        → (set_at s.next_client_id (some fd) s.client_to_socket c ≡ some f)
          × (c < inc64 s.next_client_id)
    routed f c h = elim (set_at-cases fd (some s.next_client_id) s.fd_to_client_id f) [
      | inl (e, x) ↦
          let k : some s.next_client_id ≡ some c = sym x ∙ h in
          let d : c ≡ s.next_client_id = cc in
          elim (set_at-cases s.next_client_id (some fd) s.client_to_socket c) [
            | inl (_, y) ↦ (y ∙ ap some (sym e), omega arith)
            | inr (ne, y) ↦ absurd (ne d)
          ]
      | inr (ne, x) ↦
          let (at, lt) = v.routed f c (sym x ∙ h) in
          elim (set_at-cases s.next_client_id (some fd) s.client_to_socket c) [
            | inl (d, y) ↦ absurd (omega arith)
            | inr (_, y) ↦ (y ∙ at, omega arith)
          ]
    ]

    owned :
        (c f : ℕ)
        → set_at s.next_client_id (some fd) s.client_to_socket c ≡ some f
        → set_at fd (some s.next_client_id) s.fd_to_client_id f ≡ some c
    owned c f h = elim (set_at-cases s.next_client_id (some fd) s.client_to_socket c) [
      | inl (e, x) ↦
          let k : some fd ≡ some f = sym x ∙ h in
          let d : f ≡ fd = cc in
          elim (set_at-cases fd (some s.next_client_id) s.fd_to_client_id f) [
            | inl (_, y) ↦ y ∙ ap some (sym e)
            | inr (ne, y) ↦ absurd (ne d)
          ]
      | inr (ne, x) ↦
          let at : s.fd_to_client_id f ≡ some c = v.owned c f (sym x ∙ h) in
          elim (set_at-cases fd (some s.next_client_id) s.fd_to_client_id f) [
            | inl (d, y) ↦
                absurd (let k : none ≡ some c = sym new ∙ ap s.fd_to_client_id (sym d) ∙ at in cc)
            | inr (_, y) ↦ y ∙ at
          ]
    ]

known_client-IsRouted :
    (fd : ℕ) (s : OrderServer)
    → s.next_client_id + 1 < 2 ^ 64
    → IsRouted s
    → IsRouted (known_client fd s)
known_client-IsRouted fd s fits v = go (s.fd_to_client_id fd) refl
  where
    go : (x : Option ℕ) → s.fd_to_client_id fd ≡ x → IsRouted (known_client fd s)
    go none e = rw (e, known_client) (register-IsRouted fd s e fits v)
    go (some c) e = rw (e, known_client) v

-- onRecv returns and keeps the server's two maps inverse to each other, also where it registers a
-- socket that it has not seen before, while the client ids last.
pub on_recv-IsRouted :
    (w : Wire) (sort : List RecvClientRequest → List RecvClientRequest) (accepts : ℕ → ℕ → Bool)
    (fd time : ℕ) (bytes : List ℕ) (s : OrderServer)
    → s.next_client_id + 1 < 2 ^ 64
    → IsRouted s
    → (r : List ℕ × OrderServer) × (on_recv w sort accepts fd time bytes s ≡ some r) × IsRouted r.1
on_recv-IsRouted w sort accepts fd time bytes s fits v =
    let (r, run, le, same) = on_recv_total w sort accepts fd time bytes s in
    let u : IsRouted (known_client fd s) = known_client-IsRouted fd s fits v in
    (
      r,
      run,
      record {
        routed = λ f c h.
            let (at, lt) = u.routed f c (sym (ap (λ g. g f) same.clients) ∙ h) in
            (ap (λ g. g c) same.sockets ∙ at, subst (λ n. c < n) (sym same.next) lt);
        owned = λ c f h.
            ap (λ g. g f) same.clients ∙ u.owned c f (sym (ap (λ g. g c) same.sockets) ∙ h);
      },
    )

-- onDisconnect forgets the socket and keeps the two maps inverse: no client is left whose responses
-- would go to that descriptor.
pub on_disconnect-IsRouted :
    (fd : ℕ) (s : OrderServer)
    → IsRouted s
    → IsRouted (on_disconnect fd s)
      × ((on_disconnect fd s).fd_to_client_id fd ≡ none)
      × ((c : ℕ) → (on_disconnect fd s).client_to_socket c ≢ some fd)
unfolding on_disconnect
on_disconnect-IsRouted fd s v = go (s.fd_to_client_id fd) refl
  where
    gone :
        (s' : OrderServer)
        → IsRouted s'
        → s'.fd_to_client_id fd ≡ none
        → (c : ℕ) → s'.client_to_socket c ≢ some fd
    gone s' u e c h = let k : none ≡ some c = sym e ∙ u.owned c fd h in cc

    forget :
        (c : ℕ)
        → s.fd_to_client_id fd ≡ some c
        → IsRouted (record s {
          client_to_socket = set_at c none s.client_to_socket;
          fd_to_client_id = set_at fd none s.fd_to_client_id;
        })
    forget c e = record {
      routed = λ f d h. elim (set_at-cases fd none s.fd_to_client_id f) [
        | inl (_, x) ↦ absurd (let k : none ≡ some d = sym x ∙ h in cc)
        | inr (ne, x) ↦
            let (at, lt) = v.routed f d (sym x ∙ h) in
            elim (set_at-cases c none s.client_to_socket d) [
              | inl (q, y) ↦
                  let k : some f ≡ some fd =
                    sym at ∙ ap s.client_to_socket q ∙ (v.routed fd c e).0 in
                  absurd (ne (cc))
              | inr (_, y) ↦ (y ∙ at, lt)
            ]
      ];
      owned = λ d f h. elim (set_at-cases c none s.client_to_socket d) [
        | inl (_, x) ↦ absurd (let k : none ≡ some f = sym x ∙ h in cc)
        | inr (ne, x) ↦
            let at : s.fd_to_client_id f ≡ some d = v.owned d f (sym x ∙ h) in
            elim (set_at-cases fd none s.fd_to_client_id f) [
              | inl (q, y) ↦
                  let k : some d ≡ some c = sym at ∙ ap s.fd_to_client_id q ∙ e in absurd (ne (cc))
              | inr (_, y) ↦ y ∙ at
            ]
      ];
    }

    go :
        (x : Option ℕ)
        → s.fd_to_client_id fd ≡ x
        → IsRouted (on_disconnect fd s)
          × ((on_disconnect fd s).fd_to_client_id fd ≡ none)
          × ((c : ℕ) → (on_disconnect fd s).client_to_socket c ≢ some fd)
    go none e = rw (e, on_disconnect) (v, e, gone s v e)
    go (some c) e =
        let erased : set_at fd none s.fd_to_client_id fd ≡ none = rw (==_refl fd, set_at) refl in
        rw (e, on_disconnect) (forget c e, erased, gone _ (forget c e) erased)

-- What is sent to one socket.
abbrev pub sent_to : ℕ → List (ℕ × Outbound) → List Outbound
sent_to fd [] = []
sent_to fd ((f, m) ∷ ms) = let rest = sent_to fd ms in if f == fd then m ∷ rest else rest

-- The messages about one client's orders.
abbrev pub about : ℕ → List (ℕ × MeClientResponse) → List Outbound
about c [] = []
about c ((now, r) ∷ rs) =
    let rest = about c rs in if r.client_id == c then encode_ouch now r ∷ rest else rest

-- One more response in front.
sent_to-drain :
    (fd c now : ℕ) (r : MeClientResponse) (rs : List (ℕ × MeClientResponse)) (s : OrderServer)
    → IsRouted s
    → s.fd_to_client_id fd ≡ some c
    → sent_to fd (drain_responses rs s) ≡ about c rs
    → sent_to fd (drain_responses ((now, r) ∷ rs) s) ≡ about c ((now, r) ∷ rs)
unfolding drain_responses
sent_to-drain fd c now r rs s v e rest = go (s.client_to_socket r.client_id) refl
  where
    go :
        (x : Option ℕ)
        → s.client_to_socket r.client_id ≡ x
        → sent_to fd (drain_responses ((now, r) ∷ rs) s) ≡ about c ((now, r) ∷ rs)
    go none h = elim (Bool-cases (r.client_id == c)) [
      | inl q ↦
          let k : none ≡ some fd =
            sym h ∙ ap s.client_to_socket ((==_iff r.client_id c).0 q) ∙ (v.routed fd c e).0 in
          absurd (cc)
      | inr q ↦ rw (h, q, drain_responses) rest
    ]
    go (some f) h = elim (Bool-cases (r.client_id == c)) [
      | inl q ↦
          let k : some f ≡ some fd =
            sym h ∙ ap s.client_to_socket ((==_iff r.client_id c).0 q) ∙ (v.routed fd c e).0 in
          let d : f ≡ fd = cc in
          let same : (f == fd) ≡ true = (==_iff f fd).1 d in
          rw (h, q, drain_responses) (rw same (ap (λ l. encode_ouch now r ∷ l) rest))
      | inr q ↦ elim (Bool-cases (f == fd)) [
        | inl same ↦
            let d : s.fd_to_client_id fd ≡ some r.client_id =
              ap s.fd_to_client_id (sym ((==_iff f fd).0 same)) ∙ v.owned r.client_id f h in
            let k : some r.client_id ≡ some c = sym d ∙ e in
            let j : r.client_id ≡ c = cc in
            absurd (let z : true ≡ false = sym ((==_iff r.client_id c).1 j) ∙ q in cc)
        | inr other ↦ rw (h, q, drain_responses) (rw other rest)
      ]
    ]

-- The drain of the engine's responses sends to a client's socket exactly the messages about that
-- client's orders, in the engine's order, where the two maps are inverse.
pub drain_responses-routed :
    (fd c : ℕ) (rs : List (ℕ × MeClientResponse)) (s : OrderServer)
    → IsRouted s
    → s.fd_to_client_id fd ≡ some c
    → sent_to fd (drain_responses rs s) ≡ about c rs
drain_responses-routed fd c [] s v e = unfold drain_responses in refl
drain_responses-routed fd c ((now, r) ∷ rs) s v e =
    sent_to-drain fd c now r rs s v e (drain_responses-routed fd c rs s v e)
