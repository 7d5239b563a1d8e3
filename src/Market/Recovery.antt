-- ===== src/Market/Recovery.antt =====
-- From the publisher to a client that has missed datagrams.
use nano_exchange.Base.{
  ℕ, zero, suc, ◌+◌, ◌-◌, ◌^◌, ◌<◌, ◌≤◌, ◌≡◌, refl, sym, ap, ap₂, ◌∙◌, subst, true, false, some,
  List, [], ◌∷◌, ◌++◌, map, append_assoc, All, length, length-append, length-drop, drop, inc64, ltb,
  arith,
}
use nano_exchange.Types.{MeMarketUpdate, UpdateType}
use nano_exchange.Protocol.Itch.{ItchMessage, encode, encode_as}
use nano_exchange.Market.Shadow.{changes}
use nano_exchange.Market.Replay.{
  SnapshotUpdate, SnapshotStreamer, drain, serve_replay, frames, FeedFrom, replay_capacity,
}
use nano_exchange.Market.Window.{drain-Holds, serve_replay-exact, feed_frames, answer}
use nano_exchange.Market.Publisher.{publish, publish_one, datagram, new_streamer, empty_books}

-- The numbers follow one another from the one after `n` on.
abbrev Numbered : ℕ → List SnapshotUpdate → Type 0
Numbered n [] = Unit {0}
Numbered n (u ∷ us) = (u.seq_num ≡ n + 1) × Numbered (n + 1) us

-- An update of the incremental feed has an encoding.
encode_total :
    (t : UpdateType) (ns : ℕ) (u : MeMarketUpdate)
    → changes t ≡ true
    → (m : ItchMessage) × (encode_as t ns u ≡ some m)
encode_total UpdateType.add ns u h = (_, refl)
encode_total UpdateType.cancel ns u h = (_, refl)
encode_total UpdateType.modify ns u h = (_, refl)
encode_total UpdateType.trade ns u h = (_, refl)
encode_total UpdateType.snapshot_start ns u h = absurd (cc)
encode_total UpdateType.snapshot_end ns u h = absurd (cc)
encode_total UpdateType.clear ns u h = absurd (cc)

pub publish_one_total :
    (wire : ItchMessage → List ℕ) (ns : ℕ) (u : MeMarketUpdate) (n : ℕ)
    → changes u.update_type ≡ true
    → (bytes : List ℕ) × (publish_one wire ns u n
        ≡ some (record { update = u; seq_num = n; bytes = bytes }))
unfolding publish_one encode
publish_one_total wire ns u n h =
    let (m, e) = encode_total u.update_type ns u h in (wire m, rw (e, publish_one) refl)

-- What the publisher may assume of the engine's updates.
abbrev pub Incremental : ℕ → ℕ × MeMarketUpdate → Type 0
Incremental tickers x = (changes x.1.update_type ≡ true) × (x.1.ticker_id < tickers)

-- What the feed of the updates is.
record IsFeed (tickers n count : ℕ) (us : List SnapshotUpdate) : Type 0 where
  numbered : Numbered n us
  as_many : length us ≡ count
  in_range : All (λ (u : SnapshotUpdate). u.update.ticker_id < tickers) us

publish-IsFeed :
    (wire : ItchMessage → List ℕ) (tickers n : ℕ) (us : List (ℕ × MeMarketUpdate))
    → All (Incremental tickers) us
    → n + length us + 1 < 2 ^ 64
    → IsFeed tickers n (length us) (publish wire us (n + 1))
unfolding publish
publish-IsFeed wire tickers n [] h fits = record { numbered = tt; as_many = refl; in_range = tt }
publish-IsFeed wire tickers n ((ns, u) ∷ us) h fits =
    let (m, e) = publish_one_total wire ns u (n + 1) h.0.0 in
    let next : inc64 (n + 1) ≡ n + 1 + 1 = omega arith in
    let rest : IsFeed tickers (n + 1) (length us) (publish wire us (inc64 (n + 1))) =
      subst (λ k. IsFeed tickers (n + 1) (length us) (publish wire us k)) (sym next)
        (publish-IsFeed wire tickers (n + 1) us h.1 (omega arith)) in
    rw e (record {
      numbered = (refl, rest.numbered);
      as_many = ap suc rest.as_many;
      in_range = (h.0.1, rest.in_range);
    })

-- The bytes at a position.
abbrev bytes_at : List SnapshotUpdate → ℕ → List ℕ
bytes_at [] k = []
bytes_at (u ∷ us) zero = u.bytes
bytes_at (u ∷ us) (suc k) = bytes_at us k

bytes_at-append :
    (pre : List SnapshotUpdate) (u : SnapshotUpdate) (us : List SnapshotUpdate)
    → bytes_at (pre ++ u ∷ us) (length pre) ≡ u.bytes
bytes_at-append [] u us = refl
bytes_at-append (x ∷ pre) u us = bytes_at-append pre u us

abbrev feed_of : List SnapshotUpdate → ℕ → List ℕ
feed_of us k = bytes_at us (k - 1)

Numbered-FeedFrom :
    (pre us : List SnapshotUpdate)
    → Numbered (length pre) us
    → FeedFrom (feed_of (pre ++ us)) (length pre) us
Numbered-FeedFrom pre [] h = tt
Numbered-FeedFrom pre (u ∷ us) h =
    let next : length (pre ++ u ∷ []) ≡ length pre + 1 =
      omega (arith, length-append pre (u ∷ [])) in
    let whole : (pre ++ u ∷ []) ++ us ≡ pre ++ u ∷ us = append_assoc pre (u ∷ []) us in
    let rest : FeedFrom (feed_of ((pre ++ u ∷ []) ++ us)) (length (pre ++ u ∷ [])) us =
      Numbered-FeedFrom (pre ++ u ∷ []) us (subst (λ k. Numbered k us) (sym next) h.1) in
    let at : length pre + 1 - 1 ≡ length pre = omega arith in
    (
      h.0,
      sym (ap (bytes_at (pre ++ u ∷ us)) at ∙ bytes_at-append pre u us),
      subst (λ k. FeedFrom (feed_of (pre ++ u ∷ us)) k us) next
          (subst (λ l. FeedFrom (feed_of l) (length (pre ++ u ∷ [])) us) whole rest),
    )

module _ (feed : ℕ → List ℕ) where
  FeedFrom-frames :
      (n : ℕ) (us : List SnapshotUpdate)
      → FeedFrom feed n us
      → feed_frames feed (length us) (n + 1) ≡ map datagram us
  FeedFrom-frames n [] h = refl
  FeedFrom-frames n (u ∷ us) h =
      ap₂ ◌∷◌ (ap₂ (λ s b. record { seq = s; bytes = b }) (sym h.0) (sym h.1))
        (FeedFrom-frames (n + 1) us h.2)

  FeedFrom-drop :
      (c n : ℕ) (us : List SnapshotUpdate)
      → c ≤ length us
      → FeedFrom feed n us
      → FeedFrom feed (n + c) (drop c us)
  FeedFrom-drop zero n us k h = subst (λ x. FeedFrom feed x us) (omega arith) h
  FeedFrom-drop (suc c) n [] k h = absurd (omega arith)
  FeedFrom-drop (suc c) n (u ∷ us) k h =
      subst (λ x. FeedFrom feed x (drop c us)) (omega arith)
        (FeedFrom-drop c (n + 1) us (omega arith) h.2)

pub length-empty_books : (n : ℕ) → length (empty_books n) ≡ n
length-empty_books zero = refl
length-empty_books (suc n) = ap suc (length-empty_books n)

-- A client that has missed the datagrams after the c-th, at most 8192, recovers exactly them: the
-- streamer takes all that the publisher queues for it, and answers a replay request with the
-- datagrams that the publisher has sent after the c-th, in order. The updates are those of the
-- incremental feed, of tickers that the streamer has, and their numbers fit 64 bits.
pub serve_replay-recovers :
    (wire : ItchMessage → List ℕ) (us : List (ℕ × MeMarketUpdate)) (tickers c : ℕ)
    → All (Incremental tickers) us
    → length us + 1 < 2 ^ 64
    → c < length us
    → length us ≤ c + replay_capacity
    → (s : SnapshotStreamer) × (drain (publish wire us 1) (new_streamer tickers) ≡ some s)
      × (serve_replay c s ≡ frames (map datagram (drop c (publish wire us 1))))
serve_replay-recovers wire us tickers c h fits missed near =
    let snaps : List SnapshotUpdate = (publish wire us 1) in
    let feed : ℕ → List ℕ = feed_of snaps in
    let is : IsFeed tickers 0 (length us) snaps =
      publish-IsFeed wire tickers 0 us h (omega arith) in
    let from : FeedFrom feed 0 snaps = Numbered-FeedFrom [] snaps is.numbered in
    let many : length snaps ≡ length us = is.as_many in
    let (s, run, held, last) =
      drain-Holds feed snaps (new_streamer tickers) from
        (subst (λ n. All (λ (u : SnapshotUpdate). u.update.ticker_id < n) snaps)
          (sym (length-empty_books tickers)) is.in_range)
        (omega arith) (record { small = omega arith; window = λ k i j l. absurd (omega arith) }) in
    let end : s.last_seq_num ≡ length us = omega arith in
    let less : ltb c s.last_seq_num ≡ true = ground arith in
    let close : ltb (c + replay_capacity) s.last_seq_num ≡ false = ground arith in
    let count : length (drop c snaps) ≡ s.last_seq_num - c =
      omega (arith, length-drop c snaps (omega arith)) in
    let zero_plus : 0 + c ≡ c = omega arith in
    let from_c : FeedFrom feed c (drop c snaps) =
      subst (λ k. FeedFrom feed k (drop c snaps)) zero_plus
        (FeedFrom-drop feed c 0 snaps (omega arith) from) in
    (
      s,
      run,
      serve_replay-exact feed c s held
          ∙ rw (less, close, answer)
              (ap frames (
                ap (λ k. feed_frames feed k (c + 1)) (sym count)
                ∙ FeedFrom-frames feed c (drop c snaps) from_c)),
    )
