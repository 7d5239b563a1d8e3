-- ===== src/Tests/Requests.antt =====
-- The snapshot streamer's clients.
use nano_exchange.Base.{ℕ, ◌≡◌, refl, Bool, inl, some, List, [], ◌∷◌, min, length, arith}
use nano_exchange.Market.Snapshot.{SnapshotServer, IsCurrent}
use nano_exchange.Market.Sockets.{Sent, SentOk, send_all, send_all-total, IsPrompt}
use nano_exchange.Market.Requests.{Reply, Connection, handle_client, serve_round, reply_to}
use nano_exchange.Market.Replies.{AnswersAll, handle_client-reply, serve_round-AnswersAll}
use nano_exchange.Tests.Feeds.{snap, unbaked, drained_one, drains_one}

-- A kernel that takes at most two bytes at a time.
abbrev two : ℕ → ℕ → ℕ
two i k = min 2 k

sends_all :
    send_all 5 two 0 (1 ∷ 2 ∷ 3 ∷ 4 ∷ 5 ∷ [])
    ≡ some (record { bytes = 1 ∷ 2 ∷ 3 ∷ 4 ∷ 5 ∷ []; ok = Bool.true })
unfolding send_all
sends_all = refl

send_all-total_example :
    (r : Sent) × (send_all 5 two 0 (1 ∷ 2 ∷ 3 ∷ 4 ∷ 5 ∷ []) ≡ some r)
    × SentOk (1 ∷ 2 ∷ 3 ∷ 4 ∷ 5 ∷ []) r
send_all-total_example = send_all-total two (1 ∷ 2 ∷ 3 ∷ 4 ∷ 5 ∷ []) (λ i k. omega arith)

-- A kernel that delivers at most three bytes at a time.
abbrev three : ℕ → ℕ → List ℕ → ℕ
three j size s = min 3 (min size (length s))

three-IsPrompt : IsPrompt three
three-IsPrompt = record {
  within = λ j size s. omega arith;
  arrived = λ j size s. omega arith;
  some_byte = λ j size s h k. omega arith;
}

-- An R and the number 0, and an S.
abbrev asks_replay : Connection
asks_replay = record {
  stream = 0x52 ∷ 0 ∷ 0 ∷ 0 ∷ 0 ∷ 0 ∷ 0 ∷ 0 ∷ 0 ∷ [];
  recv = three;
  clock = λ j. j;
}

abbrev asks_snapshot : Connection
asks_snapshot = record { stream = 0x53 ∷ []; recv = three; clock = λ j. j }

-- What swap64 makes of eight bytes, here of the last one.
abbrev load : List ℕ → ℕ
load (a ∷ b ∷ c ∷ d ∷ e ∷ f ∷ g ∷ h ∷ []) = h
load bs = 0

handle_client-reply_example :
    handle_client load asks_replay (record unbaked { streamer = drained_one })
    ≡ some (
        reply_to load asks_replay.clock asks_replay.stream
          (record unbaked { streamer = drained_one }))
handle_client-reply_example =
    handle_client-reply load asks_replay three-IsPrompt (record unbaked { streamer = drained_one })

serve_round-AnswersAll_example :
    (y : List Reply × SnapshotServer) × (serve_round load
        (snap 1 ∷ [])
        (asks_snapshot ∷ asks_replay ∷ [])
        unbaked
      ≡ some y)
    × AnswersAll load drained_one (asks_snapshot ∷ asks_replay ∷ []) y.0
    × IsCurrent y.1
serve_round-AnswersAll_example =
    serve_round-AnswersAll load (snap 1 ∷ []) (asks_snapshot ∷ asks_replay ∷ []) unbaked drained_one
      (three-IsPrompt, (three-IsPrompt, tt)) (inl refl) (refl, tt) drains_one
