-- ===== src/Market/Snapshot.antt =====
-- The snapshots of src/network/market/snapshot_stream.h: bakeSnapshot and serveSnapshot. The clock
-- is a parameter, asked once for each message of a bake: `clock j` is the j-th answer.
use nano_exchange.Base.{
  ℕ, suc, ◌≡◌, ◌⊎◌, refl, sym, ap, ◌∙◌, subst, Bool, true, false, ◌||◌, inl, inr, Option, none,
  some, Option-cases, Bool-cases, List, [], ◌∷◌, ◌++◌, All, if◌then◌else◌, ◌>>=◌, get_elem?,
}
use nano_exchange.Types.{UpdateType}
use nano_exchange.Protocol.Itch.{ItchMessage, order_delete, write_timestamp, encode}
use nano_exchange.Market.Shadow.{Orders, apply_to_book, changes}
use nano_exchange.Market.Replay.{SnapshotUpdate, SnapshotStreamer, drain, drain_one}

abbrev pub snap_ctrl_start : ℕ
snap_ctrl_start = 0xBBBB

abbrev pub snap_ctrl_clear : ℕ
snap_ctrl_clear = 0xCCCC

abbrev pub snap_ctrl_end : ℕ
snap_ctrl_end = 0xEEEE

-- `append_ctrl`.
abbrev pub control : ℕ → ℕ → ℕ → ItchMessage
control code value ns =
    order_delete
      (record { stock_locate = code; tracking_number = 0; timestamp = write_timestamp ns }) value

-- The orders of a ticker as additions, and the number of the next answer of the clock.
unfoldable pub add_messages : (ℕ → ℕ) → ℕ → Orders → List ItchMessage × ℕ
add_messages clock j [] = ([], j)
add_messages clock j ((id, u) ∷ m) =
    let (rest, n) = add_messages clock (suc j) m in
    elim (encode (clock j) (record u { update_type = UpdateType.add })) [
      | none ↦ (rest, n)
      | some x ↦ (x ∷ rest, n)
    ]

unfoldable pub ticker_messages : (ℕ → ℕ) → ℕ → ℕ → List Orders → List ItchMessage × ℕ
ticker_messages clock j ticker_id [] = ([], j)
ticker_messages clock j ticker_id (m ∷ ms) =
    let (adds, k) = add_messages clock (suc j) m in
    let (rest, n) = ticker_messages clock k (suc ticker_id) ms in
    (control snap_ctrl_clear ticker_id (clock j) ∷ adds ++ rest, n)

unfoldable pub bake_snapshot : (ℕ → ℕ) → SnapshotStreamer → List ItchMessage
bake_snapshot clock s =
    let (body, n) = ticker_messages clock 1 0 s.shadow_book.tickers in
    control snap_ctrl_start s.last_seq_num (clock 0) ∷ body
    ++ control snap_ctrl_end s.last_seq_num (clock n) ∷ []

-- The streamer with `snapshot_buf_`.
pub record SnapshotServer : Type 0 where
  pub streamer : SnapshotStreamer
  pub snapshot_buf : List ItchMessage

abbrev pub empty : List ItchMessage → Bool
empty [] = true
empty (x ∷ xs) = false

abbrev pub clean : SnapshotStreamer → SnapshotStreamer
clean s = record s { shadow_book = record s.shadow_book { dirty = false } }

-- What an 'S' request is sent, and the server after.
unfoldable pub serve_snapshot : (ℕ → ℕ) → SnapshotServer → List ItchMessage × SnapshotServer
serve_snapshot clock s =
    let buf : List ItchMessage = bake_snapshot clock s.streamer in
    if s.streamer.shadow_book.dirty || empty s.snapshot_buf
    then (buf, record { streamer = clean s.streamer; snapshot_buf = buf })
    else (s.snapshot_buf, s)

-- The buffer is to be baked anew, or it holds a bake of the streamer's present state.
abbrev pub IsCurrent : SnapshotServer → Type 0
IsCurrent s =
    ((s.streamer.shadow_book.dirty || empty s.snapshot_buf) ≡ true)
    ⊎ ((clock : ℕ → ℕ) × (s.snapshot_buf ≡ bake_snapshot clock s.streamer))

pub serve_snapshot-IsCurrent :
    (clock : ℕ → ℕ) (s : SnapshotServer)
    → IsCurrent s
    → ((clock' : ℕ → ℕ) × ((serve_snapshot clock s).0 ≡ bake_snapshot clock' s.streamer))
      × IsCurrent (serve_snapshot clock s).1
unfolding serve_snapshot bake_snapshot
serve_snapshot-IsCurrent clock s v =
    elim (Bool-cases (s.streamer.shadow_book.dirty || empty s.snapshot_buf)) [
      | inl e ↦ rw e ((clock, refl), inr (clock, refl))
      | inr e ↦ elim v [
        | inl a ↦ absurd (let k : true ≡ false = sym a ∙ e in cc)
        | inr c ↦ rw e (c, inr c)
      ]
    ]

-- Where there is a streamer, its book has changed since the last bake.
abbrev dirty_of : Option SnapshotStreamer → Bool
dirty_of none = true
dirty_of (some s) = s.shadow_book.dirty

abbrev Changes : SnapshotUpdate → Type 0
Changes u = changes u.update.update_type ≡ true

drain_one-dirty :
    (u : SnapshotUpdate) (s : SnapshotStreamer) → Changes u → dirty_of (drain_one u s) ≡ true
unfolding drain_one apply_to_book
drain_one-dirty u s h = elim (Option-cases (get_elem? s.shadow_book.tickers u.update.ticker_id)) [
  | inl e ↦ rw e refl
  | inr (m, e) ↦ rw e (rw h refl)
]

drain-dirty :
    (u : SnapshotUpdate) (us : List SnapshotUpdate) (s : SnapshotStreamer)
    → Changes u
    → All Changes us
    → dirty_of (drain (u ∷ us) s) ≡ true
unfolding drain
drain-dirty u [] s h hs = elim (Option-cases (drain_one u s)) [
  | inl e ↦ subst (λ x. dirty_of (x >>= λ s1. drain [] s1) ≡ true) (sym e) refl
  | inr (s1, e) ↦
      subst (λ x. dirty_of (x >>= λ s2. drain [] s2) ≡ true) (sym e)
        (unfold drain in sym (ap dirty_of e) ∙ drain_one-dirty u s h)
]
drain-dirty u (u' ∷ us) s h hs = elim (Option-cases (drain_one u s)) [
  | inl e ↦ subst (λ x. dirty_of (x >>= λ s1. drain (u' ∷ us) s1) ≡ true) (sym e) refl
  | inr (s1, e) ↦
      subst (λ x. dirty_of (x >>= λ s2. drain (u' ∷ us) s2) ≡ true) (sym e)
        (drain-dirty u' us s1 hs.0 hs.1)
]

-- A drain leaves the buffer current, or to be baked anew.
pub drained :
    (us : List SnapshotUpdate) (s : SnapshotServer) (s' : SnapshotStreamer)
    → IsCurrent s
    → All Changes us
    → drain us s.streamer ≡ some s'
    → IsCurrent (record s { streamer = s' })
unfolding drain
drained [] s s' v h run =
    let e : s.streamer ≡ s' = ap (λ x. elim x [ none ↦ s' | some y ↦ y ]) run in
    subst (λ x. IsCurrent (record s { streamer = x })) e v
drained (u ∷ us) s s' v h run =
    let d : s'.shadow_book.dirty ≡ true =
      sym (ap dirty_of run) ∙ drain-dirty u us s.streamer h.0 h.1 in
    inl (rw d refl)

-- A snapshot request is answered with the present state of the streamer, if its buffer was current
-- before: what is sent after a drain of updates of the incremental feed is a bake of the state
-- after the drain, at the times of some bake, and the buffer is current for the next request.
pub serve_snapshot-drain :
    (clock : ℕ → ℕ) (us : List SnapshotUpdate) (s : SnapshotServer) (s' : SnapshotStreamer)
    → IsCurrent s
    → All (λ (u : SnapshotUpdate). changes u.update.update_type ≡ true) us
    → drain us s.streamer ≡ some s'
    → ((clock' : ℕ → ℕ) × ((serve_snapshot clock (record s { streamer = s' })).0
          ≡ bake_snapshot clock' s'))
      × IsCurrent (serve_snapshot clock (record s { streamer = s' })).1
serve_snapshot-drain clock us s s' v h run =
    serve_snapshot-IsCurrent clock (record s { streamer = s' }) (drained us s s' v h run)
