-- ===== src/Market/Replies.antt =====
-- What the clients of the snapshot streamer are answered.
use nano_exchange.Base.{
  ℕ, ◌≤◌, ◌<◌, ◌≡◌, ◌⊎◌, refl, ap, ◌∙◌, subst, true, false, ◌||◌, if◌then◌else◌, inl, inr, some,
  List, [], ◌∷◌, length, take, leb, ◌==◌, Bool-cases, All, arith,
}
use nano_exchange.Market.Shadow.{changes}
use nano_exchange.Market.Replay.{SnapshotUpdate, SnapshotStreamer, drain, serve_replay}
use nano_exchange.Market.Snapshot.{
  SnapshotServer, serve_snapshot, bake_snapshot, clean, empty, IsCurrent, serve_snapshot-IsCurrent,
  drained,
}
use nano_exchange.Market.Sockets.{Received, IsPrompt, ReceivedOk, recv_exact-total}
use nano_exchange.Market.Requests.{
  Reply, silent, snapshot, replay, Connection, byte_s, byte_r, by_first_byte, on_request,
  handle_client, serve_requests, serve_round, reply_to,
}

module _ (load : List ℕ → ℕ) (c : Connection) (v : IsPrompt c.recv) (srv : SnapshotServer) where
  on_request-failed :
      (r : Received) (bs : List ℕ) → r.ok ≡ false → on_request load c srv r bs ≡ some (silent, srv)
  on_request-failed r [] h = refl
  on_request-failed r (b ∷ bs) h = rw h refl

  by_first_byte-reply :
      (b : ℕ) (bs : List ℕ) (r : Received)
      → r.rest ≡ bs
      → by_first_byte load c srv b r ≡ some (reply_to load c.clock (b ∷ bs) srv)
  unfolding by_first_byte
  by_first_byte-reply b bs r h = elim (Bool-cases (b == byte_s)) [
    | inl e ↦ rw (e, by_first_byte) refl
    | inr e ↦ elim (Bool-cases (b == byte_r)) [
      | inl f ↦
          let (r', run, ok) = recv_exact-total 8 c.recv r.calls 8 r.rest v (omega arith) in
          rw (e, f, by_first_byte)
            (rw run (elim ok [
              | inl (le, done, bytes, _) ↦
                  let le' : 8 ≤ length bs = subst (λ x. 8 ≤ length x) h le in
                  let g : leb 8 (length bs) ≡ true = ground (arith, le') in
                  rw (done, g)
                    (ap (λ x. some (replay (serve_replay (load x) srv.streamer), srv))
                      (bytes ∙ ap (take 8) h))
              | inr (lt, failed) ↦
                  let lt' : length bs < 8 = subst (λ x. length x < 8) h lt in
                  let g : leb 8 (length bs) ≡ false = ground (arith, lt') in rw (failed, g) refl
            ]))
      | inr f ↦ rw (e, f, by_first_byte) refl
    ]
  ]

  request_read :
      (s : List ℕ) (r : Received)
      → ReceivedOk 1 s r
      → on_request load c srv r r.bytes ≡ some (reply_to load c.clock s srv)
  unfolding by_first_byte
  request_read [] r (inl (le, _, _, _)) = absurd (omega arith)
  request_read [] r (inr (_, failed)) = on_request-failed r r.bytes failed
  request_read (b ∷ bs) r (inr (lt, _)) = absurd (omega arith)
  request_read (b ∷ bs) r (inl (_, ok, bytes, rest)) =
      ap (on_request load c srv r) bytes ∙ rw ok (by_first_byte-reply b bs r rest)

  -- Where no receive waits longer than its deadline for what the client sends, handleClient
  -- returns, and its reply depends on the bytes that the client sends alone, in however many pieces
  -- the kernel delivers them: a snapshot for an S, a replay for an R with a number of eight bytes
  -- behind it, and nothing otherwise.
  pub handle_client-reply : handle_client load c srv ≡ some (reply_to load c.clock c.stream srv)
  unfolding handle_client
  handle_client-reply =
      let (r, run, ok) = recv_exact-total 1 c.recv 0 1 c.stream v (omega arith) in
      rw run (request_read c.stream r ok)

-- The state that a server speaks of, but for the flag that asks for a new bake.
abbrev pub Speaks : SnapshotStreamer → SnapshotServer → Type 0
Speaks s srv = (srv.streamer ≡ s) ⊎ (srv.streamer ≡ clean s)

-- What a client that has sent these bytes is to be answered of the state.
abbrev pub answer : (List ℕ → ℕ) → (ℕ → ℕ) → SnapshotStreamer → List ℕ → Reply
answer load clock s [] = silent
answer load clock s (b ∷ bs) =
    if b == byte_s
    then snapshot (bake_snapshot clock s)
    else if b == byte_r
    then (if leb 8 (length bs) then replay (serve_replay (load (take 8 bs)) s) else silent)
    else silent

-- A reply is the answer of the state, baked at some time.
abbrev pub Answers : (List ℕ → ℕ) → SnapshotStreamer → List ℕ → Reply → Type 0
Answers load s bs r = (clock : ℕ → ℕ) × (r ≡ answer load clock s bs)

-- As many replies as connections, each the answer to its own.
abbrev pub AnswersAll : (List ℕ → ℕ) → SnapshotStreamer → List Connection → List Reply → Type 0
AnswersAll load s [] [] = Unit {0}
AnswersAll load s [] (r ∷ rs) = ⊥
AnswersAll load s (c ∷ cs) [] = ⊥
AnswersAll load s (c ∷ cs) (r ∷ rs) = Answers load s c.stream r × AnswersAll load s cs rs

bake-Speaks :
    (s : SnapshotStreamer) (srv : SnapshotServer) (clock : ℕ → ℕ)
    → Speaks s srv
    → bake_snapshot clock srv.streamer ≡ bake_snapshot clock s
unfolding bake_snapshot
bake-Speaks s srv clock (inl e) = ap (bake_snapshot clock) e
bake-Speaks s srv clock (inr e) = ap (bake_snapshot clock) e

replay-Speaks :
    (s : SnapshotStreamer) (srv : SnapshotServer) (n : ℕ)
    → Speaks s srv
    → serve_replay n srv.streamer ≡ serve_replay n s
unfolding serve_replay
replay-Speaks s srv n (inl e) = ap (serve_replay n) e
replay-Speaks s srv n (inr e) = ap (serve_replay n) e

serve_snapshot-Speaks :
    (s : SnapshotStreamer) (srv : SnapshotServer) (clock : ℕ → ℕ)
    → Speaks s srv
    → Speaks s (serve_snapshot clock srv).1
unfolding serve_snapshot
serve_snapshot-Speaks s srv clock h =
    elim (Bool-cases (srv.streamer.shadow_book.dirty || empty srv.snapshot_buf)) [
      | inl e ↦ rw e (elim h [ inl f ↦ inr (ap clean f) | inr f ↦ inr (ap clean f) ])
      | inr e ↦ rw e h
    ]

-- What a reply leaves.
abbrev Kept : (List ℕ → ℕ) → List ℕ → SnapshotStreamer → Reply × SnapshotServer → Type 0
Kept load bs s x = Answers load s bs x.0 × IsCurrent x.1 × Speaks s x.1

reply_to-Kept :
    (load : List ℕ → ℕ) (clock : ℕ → ℕ) (bs : List ℕ) (s : SnapshotStreamer) (srv : SnapshotServer)
    → IsCurrent srv
    → Speaks s srv
    → Kept load bs s (reply_to load clock bs srv)
reply_to-Kept load clock [] s srv v h = ((clock, refl), v, h)
reply_to-Kept load clock (b ∷ bs) s srv v h = elim (Bool-cases (b == byte_s)) [
  | inl e ↦
      let (x, cur) = serve_snapshot-IsCurrent clock srv v in
      let (clock', baked) = x in
      rw e (
        (clock', ap snapshot (baked ∙ bake-Speaks s srv clock' h)),
        cur,
        serve_snapshot-Speaks s srv clock h,
      )
  | inr e ↦ rw e (elim (Bool-cases (b == byte_r)) [
    | inl f ↦ rw f (elim (Bool-cases (leb 8 (length bs))) [
      | inl g ↦ rw g ((clock, ap replay (replay-Speaks s srv _ h)), v, h)
      | inr g ↦ rw g ((clock, refl), v, h)
    ])
    | inr f ↦ rw f ((clock, refl), v, h)
  ])
]

-- The connections of a queue, with kernels that deliver what has come.
abbrev pub Prompt : List Connection → Type 0
Prompt = All (λ c. IsPrompt c.recv)

abbrev pub AllKept :
    (List ℕ → ℕ) → List Connection → SnapshotStreamer → List Reply × SnapshotServer → Type 0
AllKept load cs s y = AnswersAll load s cs y.0 × IsCurrent y.1 × Speaks s y.1

pub serve_requests-Kept :
    (load : List ℕ → ℕ) (cs : List Connection) (s : SnapshotStreamer) (srv : SnapshotServer)
    → Prompt cs
    → IsCurrent srv
    → Speaks s srv
    → (y : List Reply × SnapshotServer) × (serve_requests load cs srv ≡ some y)
      × AllKept load cs s y
unfolding serve_requests
serve_requests-Kept load [] s srv p v h = (([], srv), refl, (tt, v, h))
serve_requests-Kept load (c ∷ cs) s srv p v h =
    let x : Reply × SnapshotServer = reply_to load c.clock c.stream srv in
    let (answered, v1, h1) = reply_to-Kept load c.clock c.stream s srv v h in
    let (y, run, (all, v2, h2)) = serve_requests-Kept load cs s x.1 p.1 v1 h1 in
    (
      (x.0 ∷ y.0, y.1),
      rw (handle_client-reply load c p.0 srv) (rw run refl),
      ((answered, all), v2, h2),
    )

-- A round of the streamer serves every connection that waits, in order: there are as many replies
-- as connections, and each is what the bytes of its connection ask of the state after the drain of
-- the round, a bake of it for an S, the answer to the replay request for an R with eight bytes
-- behind it, and nothing otherwise; the buffer is current for the next round. The round takes
-- updates of the incremental feed, the buffer was current before, and no receive of a connection
-- waits longer than its deadline for what the client sends.
pub serve_round-AnswersAll :
    (load : List ℕ → ℕ) (us : List SnapshotUpdate) (cs : List Connection) (srv : SnapshotServer)
    (s : SnapshotStreamer)
    → Prompt cs
    → IsCurrent srv
    → All (λ (u : SnapshotUpdate). changes u.update.update_type ≡ true) us
    → drain us srv.streamer ≡ some s
    → (y : List Reply × SnapshotServer) × (serve_round load us cs srv ≡ some y)
      × AnswersAll load s cs y.0
      × IsCurrent y.1
unfolding serve_round
serve_round-AnswersAll load us cs srv s p v h run =
    let (y, served, (all, cur, _)) =
      serve_requests-Kept load cs s (record srv { streamer = s }) p (drained us srv s v h run)
        (inl refl) in
    (y, rw run served, all, cur)
