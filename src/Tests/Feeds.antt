-- ===== src/Tests/Feeds.antt =====
-- The shadow book and the replay ring.
use nano_exchange.Base.{inl, Bool, map, drop, ℕ, ◌≡◌, refl, some, List, [], ◌∷◌, arith}
use nano_exchange.Types.{buy, UpdateType, MeMarketUpdate, order_id_invalid}
use nano_exchange.Market.Replay.{
  SnapshotUpdate, SnapshotStreamer, drain, serve_replay, Holds, frames, write_replay_entry,
}
use nano_exchange.Protocol.Itch.{ItchMessage}
use nano_exchange.Market.Publisher.{publish, datagram, new_streamer}
use nano_exchange.Market.Shadow.{put, apply_to_book}
use nano_exchange.Market.Snapshot.{
  SnapshotServer, serve_snapshot, bake_snapshot, IsCurrent, serve_snapshot-drain,
}
use nano_exchange.Market.Recovery.{serve_replay-recovers}
use nano_exchange.Market.Window.{drain-Holds, serve_replay-exact, answer}

abbrev pub added : ℕ → MeMarketUpdate
added id = record {
  ticker_id = 0;
  market_order_id = id;
  update_type = UpdateType.add;
  side = buy;
  price = 100;
  qty = 5;
  new_order_id = order_id_invalid;
  match_id = order_id_invalid;
}

abbrev pub snap : ℕ → SnapshotUpdate
snap n = record { update = added n; seq_num = n; bytes = n ∷ [] }

abbrev feed : ℕ → List ℕ
feed n = n ∷ []

abbrev pub fresh : SnapshotStreamer
fresh = record {
  shadow_book = record { tickers = [] ∷ []; dirty = Bool.false };
  last_seq_num = 0;
  replay_buffer = λ i. record { seq = 0; bytes = [] };
}

fresh-Holds : Holds feed fresh
fresh-Holds = record { small = omega arith; window = λ k h i j. absurd (omega arith) }

drain-Holds_example :
    (s' : SnapshotStreamer) × (drain (snap 1 ∷ snap 2 ∷ []) fresh ≡ some s')
    × Holds feed s'
    × (s'.last_seq_num ≡ 2)
drain-Holds_example =
    drain-Holds feed (snap 1 ∷ snap 2 ∷ []) fresh (refl, refl, (refl, refl, tt)) (omega arith)
      (omega arith) fresh-Holds

-- A streamer that has taken the update 1.
abbrev one : SnapshotStreamer
one = record fresh { last_seq_num = 1; replay_buffer = λ i. record { seq = 1; bytes = 1 ∷ [] } }

one-Holds : Holds feed one
one-Holds = record {
  small = omega arith;
  window = λ k h i j. let e : k ≡ 1 = omega arith in rw e refl;
}

serve_replay-exact_example : serve_replay 0 one ≡ answer feed 1 0
serve_replay-exact_example = serve_replay-exact feed 0 one one-Holds

-- The bytes of a message are not looked at.
abbrev wire : ItchMessage → List ℕ
wire m = 1 ∷ []

serve_replay-recovers_example :
    (s : SnapshotStreamer) × (drain
        (publish wire ((5, added 1) ∷ (6, added 2) ∷ []) 1)
        (new_streamer 1)
      ≡ some s)
    × (serve_replay 1 s
        ≡ frames (map datagram (drop 1 (publish wire ((5, added 1) ∷ (6, added 2) ∷ []) 1))))
serve_replay-recovers_example =
    serve_replay-recovers wire ((5, added 1) ∷ (6, added 2) ∷ []) 1 1
      ((refl, omega arith), ((refl, omega arith), tt)) (omega arith) (omega arith) (omega arith)

-- A streamer that has never baked.
abbrev pub unbaked : SnapshotServer
unbaked = record { streamer = fresh; snapshot_buf = [] }

abbrev pub drained_one : SnapshotStreamer
drained_one = record {
  shadow_book = record { tickers = ((1, added 1) ∷ []) ∷ []; dirty = Bool.true };
  last_seq_num = 1;
  replay_buffer = write_replay_entry (snap 1) fresh.replay_buffer;
}

pub drains_one : drain (snap 1 ∷ []) fresh ≡ some drained_one
unfolding drain apply_to_book put
drains_one = refl

serve_snapshot-drain_example :
    ((clock' : ℕ → ℕ) × ((serve_snapshot (λ j. j) (record unbaked { streamer = drained_one })).0
        ≡ bake_snapshot clock' drained_one))
    × IsCurrent (serve_snapshot (λ j. j) (record unbaked { streamer = drained_one })).1
serve_snapshot-drain_example =
    serve_snapshot-drain (λ j. j) (snap 1 ∷ []) unbaked drained_one (inl refl) (refl, tt) drains_one
