-- ===== src/Market/Publisher.antt =====
-- src/network/market/marketdata_publisher.h: the rounds of the publisher's loop that take an
-- update. The bytes of a message are QuantLink's structs: a parameter. Each update comes with the
-- time at which it is encoded.
use nano_exchange.Base.{ℕ, zero, suc, Option, none, some, List, [], ◌∷◌, false, inc64}
use nano_exchange.Types.{MeMarketUpdate}
use nano_exchange.Protocol.Itch.{ItchMessage, encode}
use nano_exchange.Market.Shadow.{Orders}
use nano_exchange.Market.Replay.{SnapshotUpdate, ReplayEntry, SnapshotStreamer}

-- One round: what goes to the streamer's queue, if the update has an encoding.
unfoldable pub publish_one : (ItchMessage → List ℕ) → ℕ → MeMarketUpdate → ℕ → Option SnapshotUpdate
publish_one wire ns u next_seq_num = elim (encode ns u) [
  | none ↦ none
  | some m ↦ some (record { update = u; seq_num = next_seq_num; bytes = wire m })
]

-- What a round adds.
abbrev pub queued : Option SnapshotUpdate → List SnapshotUpdate → List SnapshotUpdate
queued none rest = rest
queued (some snap) rest = snap ∷ rest

-- What the rounds from a sequence number on queue; each takes a number.
unfoldable pub publish :
    (ItchMessage → List ℕ) → List (ℕ × MeMarketUpdate) → ℕ → List SnapshotUpdate
publish wire [] next_seq_num = []
publish wire ((ns, u) ∷ us) next_seq_num =
    queued (publish_one wire ns u next_seq_num) (publish wire us (inc64 next_seq_num))

-- The datagram of an update: the sequence number, then the same bytes.
abbrev pub datagram : SnapshotUpdate → ReplayEntry
datagram u = record { seq = u.seq_num; bytes = u.bytes }

abbrev pub empty_books : ℕ → List Orders
empty_books zero = []
empty_books (suc n) = [] ∷ empty_books n

-- The streamer at its start.
abbrev pub new_streamer : ℕ → SnapshotStreamer
new_streamer max_tickers = record {
  shadow_book = record { tickers = empty_books max_tickers; dirty = false };
  last_seq_num = 0;
  replay_buffer = λ i. record { seq = 0; bytes = [] };
}
