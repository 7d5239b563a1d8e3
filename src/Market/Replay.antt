-- ===== src/Market/Replay.antt =====
-- The replay ring of src/network/market/snapshot_stream.h, with the drain of the publisher's queue
-- and the answers to the clients' requests. Sockets are parameters.
use nano_exchange.Base.{
  ℕ, zero, suc, ◌+◌, ◌-◌, ◌%◌, ◌^◌, ◌<◌, ◌≤◌, ◌≡◌, Option, some, List, [], ◌∷◌, leb, ltb, ◌==◌,
  if◌then◌else◌, ◌>>=◌,
}
use nano_exchange.Types.{MeMarketUpdate}
use nano_exchange.Market.Shadow.{ShadowBook, apply_to_book}

abbrev pub replay_capacity : ℕ
replay_capacity = 8192

-- `SnapshotUpdate`; `bytes` are the `len_` bytes of the payload.
pub record SnapshotUpdate : Type 0 where
  pub update : MeMarketUpdate
  pub seq_num : ℕ
  pub bytes : List ℕ

-- `ReplayEntry`, with the sequence number that the eight bytes of `seq_be_` stand for.
pub record ReplayEntry : Type 0 where
  pub seq : ℕ
  pub bytes : List ℕ

pub record SnapshotStreamer : Type 0 where
  pub shadow_book : ShadowBook
  pub last_seq_num : ℕ
  pub replay_buffer : ℕ → ReplayEntry

-- `(seq - 1) & (REPLAY_CAPACITY - 1)`, on a capacity that is a power of two; `seq - 1` wraps.
abbrev pub slot : ℕ → ℕ
slot seq = (seq + 2 ^ 64 - 1) % 2 ^ 64 % replay_capacity

unfoldable pub write_replay_entry : SnapshotUpdate → (ℕ → ReplayEntry) → ℕ → ReplayEntry
write_replay_entry snap ring i =
    if slot snap.seq_num == i then record { seq = snap.seq_num; bytes = snap.bytes } else ring i

-- One round of the drain of the queue.
unfoldable pub drain_one : SnapshotUpdate → SnapshotStreamer → Option SnapshotStreamer
unfolding write_replay_entry
drain_one snap s = apply_to_book snap.update s.shadow_book >>= λ b. some (record {
  shadow_book = b;
  last_seq_num = snap.seq_num;
  replay_buffer = write_replay_entry snap s.replay_buffer;
})

unfoldable pub drain : List SnapshotUpdate → SnapshotStreamer → Option SnapshotStreamer
unfolding drain_one
drain [] s = some s
drain (u ∷ us) s = drain_one u s >>= λ s'. drain us s'

-- The answer to an 'R' request: 'C', 'N', or 'R' and the frames.
pub data ReplayAnswer : Type 0 where
  current too_old : ReplayAnswer
  frames : List ReplayEntry → ReplayAnswer

-- `for (seq = client_seq + 1; seq <= last_seq_num_; ++seq)`, by the rounds that are left.
unfoldable pub flatten : (ℕ → ReplayEntry) → ℕ → ℕ → List ReplayEntry
flatten ring zero seq = []
flatten ring (suc n) seq = ring (slot seq) ∷ flatten ring n (seq + 1)

abbrev pub oldest_replayable : ℕ → ℕ
oldest_replayable last = if ltb replay_capacity last then last - replay_capacity else 0

unfoldable pub serve_replay : ℕ → SnapshotStreamer → ReplayAnswer
unfolding flatten
serve_replay client_seq s =
    if leb s.last_seq_num client_seq
    then current
    else if ltb client_seq (oldest_replayable s.last_seq_num)
    then too_old
    else frames (flatten s.replay_buffer (s.last_seq_num - client_seq) (client_seq + 1))

-- The ring holds the frames of the latest updates of a feed, which `feed` gives by number.
pub record Holds (feed : ℕ → List ℕ) (s : SnapshotStreamer) : Type 0 where
  pub small : s.last_seq_num < 2 ^ 64
  pub window :
      (k : ℕ)
      → 0 < k
      → k ≤ s.last_seq_num
      → s.last_seq_num < k + replay_capacity
      → s.replay_buffer (slot k) ≡ record { seq = k; bytes = feed k }

-- The updates come in the order of the feed, from the number after `n` on.
abbrev pub FeedFrom : (ℕ → List ℕ) → ℕ → List SnapshotUpdate → Type 0
FeedFrom feed n [] = Unit {0}
FeedFrom feed n (u ∷ us) = (u.seq_num ≡ n + 1) × (u.bytes ≡ feed (n + 1)) × FeedFrom feed (n + 1) us
