-- ===== src/Gateway/Framing.antt =====
-- The framing of the client's byte stream in onRecv does not see how the stream was cut.
use nano_exchange.Base.{
  ℕ, zero, suc, ◌+◌, ◌<◌, ◌≤◌, ◌≡◌, refl, sym, ap, ap₂, ◌∙◌, Bool, true, false, inl, inr, Option,
  none, some, List, [], ◌∷◌, ◌++◌, length, length-append, ==_refl, length-drop, take, drop,
  take-append, drop-append, ltb, ltb→le, le→ltb, ◌==◌, ◌>>=◌, Bool-cases, arith,
}
use nano_exchange.Types.{MeClientRequest}
use nano_exchange.Gateway.Fifo.{RecvClientRequest}
use nano_exchange.Gateway.Server.{
  Wire, OrderServer, ouch_msg_size, frame, known_client, register_client, client_id_of,
  handle_message, on_recv, retain_decoded,
}

module _ {ℓ} {A : Type ℓ} (w : Wire) (step : List ℕ → A → A) where
  -- The three ways of a round: a byte that starts no message, a message that is not complete yet,
  -- and a message.
  frame_skip :
      (n t : ℕ) (ts : List ℕ) (a : A)
      → (ouch_msg_size w t == 0) ≡ true
      → frame (suc n) w step (t ∷ ts) a ≡ frame n w step ts a
  unfolding frame
  frame_skip n t ts a e = rw (e, frame) refl

  frame_wait :
      (n t : ℕ) (ts : List ℕ) (a : A)
      → (ouch_msg_size w t == 0) ≡ false
      → ltb (suc (length ts)) (ouch_msg_size w t) ≡ true
      → frame (suc n) w step (t ∷ ts) a ≡ some (t ∷ ts, a)
  unfolding frame
  frame_wait n t ts a e f = rw (e, f, frame) refl

  frame_message :
      (n t : ℕ) (ts : List ℕ) (a : A)
      → (ouch_msg_size w t == 0) ≡ false
      → ltb (suc (length ts)) (ouch_msg_size w t) ≡ false
      → frame (suc n) w step (t ∷ ts) a
        ≡ frame n w step
            (drop (ouch_msg_size w t) (t ∷ ts))
            (step (take (ouch_msg_size w t) (t ∷ ts)) a)
  unfolding frame
  frame_message n t ts a e f = rw (e, f, frame) refl

  -- A message takes a byte at least, and the rest is shorter.
  message-shorter :
      (t : ℕ) (ts : List ℕ)
      → (ouch_msg_size w t == 0) ≡ false
      → ltb (suc (length ts)) (ouch_msg_size w t) ≡ false
      → length (drop (ouch_msg_size w t) (t ∷ ts)) ≤ length ts
  message-shorter t ts e f =
      let le : ouch_msg_size w t ≤ length (t ∷ ts) = ltb→le _ _ f in
      let d : length (drop (ouch_msg_size w t) (t ∷ ts)) + ouch_msg_size w t ≡ length (t ∷ ts) =
        length-drop (ouch_msg_size w t) (t ∷ ts) le in
      let pos : 0 < ouch_msg_size w t = ground arith in omega arith

  -- The loop ends, leaves at most the bytes it began with, and keeps what every message keeps.
  pub frame_total {κ} :
      (P : A → Type κ) (keeps : (bytes : List ℕ) (a : A) → P a → P (step bytes a)) (n : ℕ)
      (xs : List ℕ) (a : A)
      → length xs < n
      → P a
      → (r : List ℕ × A) × (frame n w step xs a ≡ some r) × (length r.0 ≤ length xs) × P r.1
  frame_total P keeps zero xs a h p = absurd (omega arith)
  frame_total P keeps (suc n) [] a h p = (([], a), unfold frame in refl, omega arith, p)
  frame_total P keeps (suc n) (t ∷ ts) a h p = elim (Bool-cases (ouch_msg_size w t == 0)) [
    | inl e ↦
        let (r, run, le, q) = frame_total P keeps n ts a (omega arith) p in
        (r, frame_skip n t ts a e ∙ run, omega arith, q)
    | inr e ↦ elim (Bool-cases (ltb (suc (length ts)) (ouch_msg_size w t))) [
      | inl f ↦ ((t ∷ ts, a), frame_wait n t ts a e f, omega arith, p)
      | inr f ↦
          let less : _ = message-shorter t ts e f in
          let message : List ℕ = take (ouch_msg_size w t) (t ∷ ts) in
          let (r, run, le, q) =
            frame_total P keeps n (drop (ouch_msg_size w t) (t ∷ ts)) (step message a) (omega arith)
              (keeps message a p) in
          (r, frame_message n t ts a e f ∙ run, omega arith, q)
    ]
  ]

  -- More fuel than bytes changes nothing.
  pub frame_fuel :
      (n m : ℕ) (xs : List ℕ) (a : A)
      → length xs < n
      → length xs < m
      → frame n w step xs a ≡ frame m w step xs a
  frame_fuel zero m xs a h k = absurd (omega arith)
  frame_fuel (suc n) zero xs a h k = absurd (omega arith)
  frame_fuel (suc n) (suc m) [] a h k = unfold frame in refl
  frame_fuel (suc n) (suc m) (t ∷ ts) a h k = elim (Bool-cases (ouch_msg_size w t == 0)) [
    | inl e ↦
        frame_skip n t ts a e
        ∙ frame_fuel n m ts a (omega arith) (omega arith)
        ∙ sym (frame_skip m t ts a e)
    | inr e ↦ elim (Bool-cases (ltb (suc (length ts)) (ouch_msg_size w t))) [
      | inl f ↦ frame_wait n t ts a e f ∙ sym (frame_wait m t ts a e f)
      | inr f ↦
          let le : _ = message-shorter t ts e f in
          frame_message n t ts a e f
          ∙ frame_fuel n m (drop (ouch_msg_size w t) (t ∷ ts))
              (step (take (ouch_msg_size w t) (t ∷ ts)) a) (omega arith) (omega arith)
          ∙ sym (frame_message m t ts a e f)
    ]
  ]

  -- What a first part leaves, framed with a second part.
  abbrev then_frame : ℕ → List ℕ → Option (List ℕ × A) → Option (List ℕ × A)
  then_frame m ys x = x >>= λ r. frame m w step (r.0 ++ ys) r.1

  -- Framing a first part, and what it leaves with a second part, is framing the whole.
  pub frame-append :
      (n m : ℕ) (xs ys : List ℕ) (a : A)
      → length xs < n
      → length xs + length ys < m
      → then_frame m ys (frame n w step xs a) ≡ frame m w step (xs ++ ys) a
  frame-append zero m xs ys a h k = absurd (omega arith)
  frame-append (suc n) zero xs ys a h k = absurd (omega arith)
  frame-append (suc n) (suc m) [] ys a h k = unfold frame in refl
  frame-append (suc n) (suc m) (t ∷ ts) ys a h k =
      let l : _ = length-append ts ys in
      elim (Bool-cases (ouch_msg_size w t == 0)) [
        | inl e ↦
            ap (then_frame (suc m) ys) (frame_skip n t ts a e)
            ∙ frame-append n (suc m) ts ys a (omega arith) (omega arith)
            ∙ frame_fuel (suc m) m (ts ++ ys) a (omega arith) (omega arith)
            ∙ sym (frame_skip m t (ts ++ ys) a e)
        | inr e ↦ elim (Bool-cases (ltb (suc (length ts)) (ouch_msg_size w t))) [
          | inl f ↦ ap (then_frame (suc m) ys) (frame_wait n t ts a e f)
          | inr f ↦
              let size : ℕ = ouch_msg_size w t in
              let le : size ≤ length (t ∷ ts) = ltb→le _ _ f in
              let less : _ = message-shorter t ts e f in
              let f' : ltb (suc (length (ts ++ ys))) size ≡ false = le→ltb _ _ (omega arith) in
              let less' : _ = message-shorter t (ts ++ ys) e f' in
              ap (then_frame (suc m) ys) (frame_message n t ts a e f)
              ∙ frame-append n (suc m) (drop size (t ∷ ts)) ys (step (take size (t ∷ ts)) a)
                  (omega arith) (omega arith)
              ∙ ap₂ (λ b c. frame (suc m) w step b (step c a))
                  (sym (drop-append size (t ∷ ts) ys le)) (sym (take-append size (t ∷ ts) ys le))
              ∙ frame_fuel (suc m) m (drop size (t ∷ ts ++ ys)) (step (take size (t ∷ ts ++ ys)) a)
                  (omega arith) (omega arith)
              ∙ sym (frame_message m t (ts ++ ys) a e f')
        ]
      ]

-- The two servers know the same clients.
pub record SameClients (s s' : OrderServer) : Type 0 where
  pub clients : s'.fd_to_client_id ≡ s.fd_to_client_id
  pub sockets : s'.client_to_socket ≡ s.client_to_socket
  pub next : s'.next_client_id ≡ s.next_client_id

-- A client that is known stays known.
known_again :
    (fd c : ℕ) (s s' : OrderServer)
    → s.fd_to_client_id fd ≡ some c
    → SameClients s s'
    → (known_client fd s' ≡ s') × (client_id_of fd s' ≡ client_id_of fd s)
known_again fd c s s' e same =
    let f : s'.fd_to_client_id fd ≡ some c = ap (λ g. g fd) same.clients ∙ e in
    (rw (f, known_client) refl, rw (f, e, client_id_of) refl)

pub known_client-knows :
    (fd : ℕ) (s : OrderServer) → (c : ℕ) × ((known_client fd s).fd_to_client_id fd ≡ some c)
unfolding register_client
known_client-knows fd s = go (s.fd_to_client_id fd) refl
  where
    go :
        (x : Option ℕ)
        → s.fd_to_client_id fd ≡ x
        → (c : ℕ) × ((known_client fd s).fd_to_client_id fd ≡ some c)
    go none e = (s.next_client_id, rw (e, ==_refl fd, known_client) refl)
    go (some c) e = (c, rw (e, known_client) e)

module _ (w : Wire) (sort : List RecvClientRequest → List RecvClientRequest)
    (accepts : ℕ → ℕ → Bool) where
  retain_decoded-SameClients :
      (time : ℕ) (r : Option MeClientRequest) (s s' : OrderServer)
      → SameClients s s'
      → SameClients s (retain_decoded sort accepts time r s')
  unfolding retain_decoded
  retain_decoded-SameClients time none s s' same = same
  retain_decoded-SameClients time (some r) s s' same = record {
    clients = same.clients;
    sockets = same.sockets;
    next = same.next;
  }

  handle_message-SameClients :
      (s : OrderServer) (time cid : ℕ) (bytes : List ℕ) (s' : OrderServer)
      → SameClients s s'
      → SameClients s (handle_message w sort accepts time cid bytes s')
  unfolding handle_message
  handle_message-SameClients s time cid bytes s' same =
      retain_decoded-SameClients time _ s _
        (record { clients = same.clients; sockets = same.sockets; next = same.next })

  -- onRecv returns, leaves at most the bytes of the buffer, and knows the sender.
  pub on_recv_total :
      (fd time : ℕ) (xs : List ℕ) (s : OrderServer)
      → (r : List ℕ × OrderServer) × (on_recv w sort accepts fd time xs s ≡ some r)
        × (length r.0 ≤ length xs)
        × SameClients (known_client fd s) r.1
  unfolding on_recv
  on_recv_total fd time xs s =
      frame_total w (handle_message w sort accepts time (client_id_of fd (known_client fd s)))
        (SameClients (known_client fd s))
        (handle_message-SameClients (known_client fd s) time (client_id_of fd (known_client fd s)))
        (suc (length xs)) xs (known_client fd s) (omega arith)
        (record { clients = refl; sockets = refl; next = refl })

  -- onRecv returns, and it does not matter how the network cuts a client's stream: receiving a
  -- first part, and then a second part behind the bytes that the first one leaves in the buffer, is
  -- receiving the whole at once, if both parts carry the same kernel time.
  pub on_recv-chunks :
      (fd time : ℕ) (xs ys : List ℕ) (s : OrderServer)
      → (r : List ℕ × OrderServer) × (on_recv w sort accepts fd time xs s ≡ some r)
        × (on_recv w sort accepts fd time (r.0 ++ ys) r.1
            ≡ on_recv w sort accepts fd time (xs ++ ys) s)
  unfolding on_recv
  on_recv-chunks fd time xs ys s =
      let s0 : OrderServer = known_client fd s in
      let (r, run, le, same) = on_recv_total fd time xs s in
      let (c, e) = known_client-knows fd s in
      let (known, id) = known_again fd c s0 r.1 e same in
      let step : List ℕ → OrderServer → OrderServer =
        handle_message w sort accepts time (client_id_of fd s0) in
      let m : ℕ = suc (length xs + length ys) in
      let l1 : _ = length-append r.0 ys in
      let l2 : _ = length-append xs ys in
      (
        r,
        run,
        ap₂
              (λ a i.
                frame (suc (length (r.0 ++ ys))) w (handle_message w sort accepts time i)
                  (r.0 ++ ys) a)
              known (ap (client_id_of fd) known ∙ id)
            ∙ frame_fuel w step (suc (length (r.0 ++ ys))) m (r.0 ++ ys) r.1 (omega arith)
                (omega arith)
            ∙ sym (ap (then_frame w step m ys) run)
            ∙ frame-append w step (suc (length xs)) m xs ys s0 (omega arith) (omega arith)
            ∙ frame_fuel w step m (suc (length (xs ++ ys))) (xs ++ ys) s0 (omega arith)
                (omega arith),
      )
