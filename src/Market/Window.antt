-- ===== src/Market/Window.antt =====
-- What the replay ring answers.
use nano_exchange.Base.{
  ℕ, zero, suc, ◌+◌, ◌-◌, ◌^◌, ◌<◌, ◌≤◌, ◌≡◌, ◌≢◌, refl, sym, ap, ◌∙◌, inl, inr, true, false, some,
  List, [], ◌∷◌, leb, ltb, ◌==◌, if◌then◌else◌, Bool-cases, arith, length, All, set,
  get_elem?_in_range, length-set, ==_iff, subst, ap₂,
}
use nano_exchange.Market.Shadow.{ShadowBook, apply_to_book, apply_update, changes}
use nano_exchange.Market.Replay.{
  SnapshotUpdate, ReplayEntry, SnapshotStreamer, slot, replay_capacity, write_replay_entry,
  drain_one, drain, ReplayAnswer, current, too_old, frames, flatten, oldest_replayable,
  serve_replay, Holds, FeedFrom,
}

-- The numbers of a window have slots of their own.
slot-injective :
    (k n : ℕ) → 0 < k → k < n → n < k + replay_capacity → n < 2 ^ 64 → (slot n == slot k) ≡ false
slot-injective k n h i j l = let e : slot n ≢ slot k = omega arith in ground (arith, e)

slot_self : (n : ℕ) → (slot n == slot n) ≡ true
slot_self n = ground arith

module _ (feed : ℕ → List ℕ) where
  write-Holds :
      (snap : SnapshotUpdate) (s : SnapshotStreamer) (b : ShadowBook)
      → snap.seq_num ≡ s.last_seq_num + 1
      → snap.bytes ≡ feed (s.last_seq_num + 1)
      → s.last_seq_num + 1 < 2 ^ 64
      → Holds feed s
      → Holds feed (record {
        shadow_book = b;
        last_seq_num = snap.seq_num;
        replay_buffer = write_replay_entry snap s.replay_buffer;
      })
  unfolding write_replay_entry
  write-Holds snap s b e f l v = record { small = omega arith; window = window }
    where
      window :
          (k : ℕ)
          → 0 < k
          → k ≤ snap.seq_num
          → snap.seq_num < k + replay_capacity
          → write_replay_entry snap s.replay_buffer (slot k) ≡ record { seq = k; bytes = feed k }
      window k h i j = elim (Bool-cases (snap.seq_num == k)) [
        | inl g ↦
            let eq : snap.seq_num ≡ k = (==_iff snap.seq_num k).0 g in
            let next : s.last_seq_num + 1 ≡ k = omega arith in
            let same : (slot snap.seq_num == slot k) ≡ true =
              ap (λ n. slot n == slot k) eq ∙ slot_self k in
            rw same (cc (f, ap feed next, eq))
        | inr g ↦
            let lt : k < snap.seq_num = ground arith in
            rw (slot-injective k snap.seq_num h lt j (omega arith))
              (v.window k h (omega arith) (omega arith))
      ]

  drain_one-Holds :
      (snap : SnapshotUpdate) (s : SnapshotStreamer)
      → snap.seq_num ≡ s.last_seq_num + 1
      → snap.bytes ≡ feed (s.last_seq_num + 1)
      → s.last_seq_num + 1 < 2 ^ 64
      → snap.update.ticker_id < length s.shadow_book.tickers
      → Holds feed s
      → (s' : SnapshotStreamer) × (drain_one snap s ≡ some s')
        × Holds feed s'
        × (s'.last_seq_num ≡ s.last_seq_num + 1)
        × (length s'.shadow_book.tickers ≡ length s.shadow_book.tickers)
  unfolding drain_one apply_to_book
  drain_one-Holds snap s e f l t v =
      let (m, found) = get_elem?_in_range s.shadow_book.tickers snap.update.ticker_id t in
      let b : ShadowBook = record {
        tickers = set s.shadow_book.tickers snap.update.ticker_id (apply_update snap.update m);
        dirty = if changes snap.update.update_type then true else s.shadow_book.dirty;
      } in
      (
        record {
          shadow_book = b;
          last_seq_num = snap.seq_num;
          replay_buffer = write_replay_entry snap s.replay_buffer;
        },
        rw found refl,
        write-Holds snap s b e f l v,
        e,
        length-set s.shadow_book.tickers snap.update.ticker_id (apply_update snap.update m),
      )

  -- A streamer that drains the updates of a feed, in the feed's order and of tickers that it has,
  -- takes them all and holds the frames of the latest 8192 of them, if the numbers fit 64 bits.
  pub drain-Holds :
      (us : List SnapshotUpdate) (s : SnapshotStreamer)
      → FeedFrom feed s.last_seq_num us
      → All (λ u. u.update.ticker_id < length s.shadow_book.tickers) us
      → s.last_seq_num + length us < 2 ^ 64
      → Holds feed s
      → (s' : SnapshotStreamer) × (drain us s ≡ some s')
        × Holds feed s'
        × (s'.last_seq_num ≡ s.last_seq_num + length us)
  unfolding drain
  drain-Holds [] s h t l v = (s, refl, v, omega arith)
  drain-Holds (u ∷ us) s h t l v =
      let (s1, run, v1, last, tickers) = drain_one-Holds u s h.0 h.1 (omega arith) t.0 v in
      let (s2, run2, v2, last2) =
        drain-Holds us s1 (subst (λ n. FeedFrom feed n us) (sym last) h.2)
          (subst (λ n. All (λ x. x.update.ticker_id < n) us) (sym tickers) t.1) (omega arith) v1 in
      (s2, rw run run2, v2, omega arith)

  -- The frames of the numbers from `k` on.
  abbrev pub feed_frames : ℕ → ℕ → List ReplayEntry
  feed_frames zero k = []
  feed_frames (suc n) k = record { seq = k; bytes = feed k } ∷ feed_frames n (k + 1)

  flatten-Holds :
      (s : SnapshotStreamer) (n k : ℕ)
      → Holds feed s
      → 0 < k
      → n + k ≡ s.last_seq_num + 1
      → s.last_seq_num < k + replay_capacity
      → flatten s.replay_buffer n k ≡ feed_frames n k
  unfolding flatten
  flatten-Holds s zero k v h e w = refl
  flatten-Holds s (suc n) k v h e w =
      ap₂ ◌∷◌ (v.window k h (omega arith) w)
        (flatten-Holds s n (k + 1) v (omega arith) (omega arith) (omega arith))

  -- What a client that has the updates up to `client_seq` should be told by a streamer that has
  -- those up to `last`.
  abbrev pub answer : ℕ → ℕ → ReplayAnswer
  answer last client_seq =
      if ltb client_seq last
      then if ltb (client_seq + replay_capacity) last
        then too_old
        else frames (feed_frames (last - client_seq) (client_seq + 1))
      else current

  -- A replay request is answered exactly, by a streamer that holds the latest frames: a client that
  -- has all updates is told so; one that lacks at most 8192 gets the frames of the feed after its
  -- number, in order, none missing and none stale; one that lacks more is told to take a snapshot.
  pub serve_replay-exact :
      (client_seq : ℕ) (s : SnapshotStreamer)
      → Holds feed s
      → serve_replay client_seq s ≡ answer s.last_seq_num client_seq
  unfolding serve_replay
  serve_replay-exact c s v = elim (Bool-cases (ltb c s.last_seq_num)) [
    | inr h ↦ let a : leb s.last_seq_num c ≡ true = ground arith in rw (h, a) refl
    | inl h ↦
        let a : leb s.last_seq_num c ≡ false = ground arith in
        rw (h, a)
          (elim (Bool-cases (ltb (c + replay_capacity) s.last_seq_num)) [
            | inl k ↦
                let b : ltb c (oldest_replayable s.last_seq_num) ≡ true = ground arith in
                rw (k, b) refl
            | inr k ↦
                let b : ltb c (oldest_replayable s.last_seq_num) ≡ false = ground arith in
                rw (k, b)
                  (ap frames (
                    flatten-Holds s (s.last_seq_num - c) (c + 1) v (ground arith) (ground arith)
                      (ground arith)))
          ])
  ]
