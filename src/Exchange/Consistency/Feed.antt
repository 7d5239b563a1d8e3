-- ===== src/Exchange/Consistency/Feed.antt =====
-- The rounds of the publisher, the streamer and the gateway in the exchange.
use nano_exchange.Base.{
  ℕ, ◌<◌, ◌≡◌, refl, sym, ap, ◌∙◌, subst, inl, inr, Bool, true, some, List, [], ◌∷◌, ◌++◌, map,
  append_assoc, All, length, length-set, get_elem?, set, get_elem?-set, get_elem?-set_ne,
  get_elem?_in_range, All-middle, ◌==◌, ==_iff, Bool-cases, if◌then◌else◌, one_result, arith,
}
use mathlib.Core.List
use nano_exchange.Types.{MeMarketUpdate}
use nano_exchange.MapBook.{MeOrderBook}
use nano_exchange.Market.Shadow.{Orders, apply_update, apply_to_book, changes}
use nano_exchange.Market.Replay.{
  SnapshotUpdate, SnapshotStreamer, drain, drain_one, write_replay_entry,
}
use nano_exchange.Market.Recovery.{publish_one_total}
use nano_exchange.Market.Snapshot.{drained}
use nano_exchange.Market.Requests.{Connection}
use nano_exchange.Market.Replies.{Prompt, serve_requests-Kept}
use nano_exchange.Market.Mirror.Additions.{MirrorsBook}
use nano_exchange.Exchange.{
  Library, Exchange, publisher_takes, streamer_takes, serve_turn, after_gateway, gateway_turn,
  timed,
}
use nano_exchange.Gateway.Rounds.{Callback, Gateway}
use nano_exchange.Gateway.Rounds.Totality.{gateway_round_total}
use nano_exchange.Exchange.Pending.{pending, follow_ticker, Fed}
use nano_exchange.Exchange.Consistency.{Agree, Consistent}

-- The publisher moves the next update on.
pub publisher_takes-Consistent :
    (lib : Library) (n ns : ℕ) (q : List MeMarketUpdate) (x : Exchange)
    → x.market_update_q ≡ q
    → Consistent n x
    → Consistent n (publisher_takes lib ns q x)
unfolding publisher_takes
publisher_takes-Consistent lib n ns [] x e v = v
publisher_takes-Consistent lib n ns (u ∷ us) x e v =
    let fed : All (Fed n) (map (λ w. w.update) x.streamer_q ++ u ∷ us) =
      subst (λ q. All (Fed n) (map (λ w. w.update) x.streamer_q ++ q)) e v.fed in
    let (bytes, made) =
      publish_one_total lib.itch ns u x.next_seq_num
        (All-middle (Fed n) (map (λ w. w.update) x.streamer_q) u us fed).0 in
    rw made (
      subst (Agree n x.engine x.streamer)
        (ap (λ q. map (λ w. w.update) x.streamer_q ++ q) e
          ∙ sym (append_assoc (map (λ w. w.update) x.streamer_q) (u ∷ []) us)
          ∙ ap (λ l. l ++ us)
              (sym (List.map-append (λ (w : SnapshotUpdate). w.update) x.streamer_q (_ ∷ []))))
        v)

-- The streamer applies the next update to the shadow book.
module _ (n : ℕ) (x : Exchange) (u : SnapshotUpdate) (us : List SnapshotUpdate) (m : Orders)
    (v : Consistent n x) (e : x.streamer_q ≡ u ∷ us)
    (found : get_elem? x.streamer.streamer.shadow_book.tickers u.update.ticker_id ≡ some m) where
  abbrev pub tickers : List Orders
  tickers = x.streamer.streamer.shadow_book.tickers

  abbrev rest : List MeMarketUpdate
  rest = map (λ w. w.update) us ++ x.market_update_q

  next_pending : pending x ≡ u.update ∷ rest
  next_pending = ap (λ q. map (λ w. w.update) q ++ x.market_update_q) e

  seen : Agree n x.engine x.streamer (u.update ∷ rest)
  seen = subst (Agree n x.engine x.streamer) next_pending v

  -- The streamer after the update.
  abbrev pub next_streamer : SnapshotStreamer
  next_streamer = record {
    shadow_book = record {
      tickers = set tickers u.update.ticker_id (apply_update u.update m);
      dirty = if changes u.update.update_type then true else x.streamer.streamer.shadow_book.dirty;
    };
    last_seq_num = u.seq_num;
    replay_buffer = write_replay_entry u x.streamer.streamer.replay_buffer;
  }

  pub drains : drain_one u x.streamer.streamer ≡ some next_streamer
  unfolding drain_one apply_to_book
  drains = rw found refl

  in_range : u.update.ticker_id < length tickers
  in_range = subst (λ k. u.update.ticker_id < k) (sym seen.as_many) seen.fed.0.1

  next_mirrors :
      (t : ℕ) (b : MeOrderBook) (m' : Orders)
      → get_elem? x.engine.books t ≡ some b
      → get_elem? (set tickers u.update.ticker_id (apply_update u.update m)) t ≡ some m'
      → MirrorsBook b (follow_ticker t rest m')
  next_mirrors t b m' h k = elim (Bool-cases (u.update.ticker_id == t)) [
    | inl f ↦
        let f' : u.update.ticker_id ≡ t = (==_iff u.update.ticker_id t).0 f in
        let new : apply_update u.update m ≡ m' =
          one_result _ (apply_update u.update m) m'
            (ap (get_elem? (set tickers u.update.ticker_id (apply_update u.update m))) (sym f')
              ∙ get_elem?-set tickers u.update.ticker_id (apply_update u.update m) in_range)
            k in
        subst (λ y. MirrorsBook b (follow_ticker t rest y))
          (ap (λ c. if c then apply_update u.update m else m) f ∙ new)
          (seen.mirrors t b m h (ap (get_elem? tickers) (sym f') ∙ found))
    | inr f ↦
        subst (λ y. MirrorsBook b (follow_ticker t rest y))
          (ap (λ c. if c then apply_update u.update m' else m') f)
          (seen.mirrors t b m' h (
            sym (get_elem?-set_ne tickers (apply_update u.update m) (λ g. ground (arith, f, g)))
            ∙ k))
  ]

  next-Consistent :
      Consistent n
        (record x { streamer_q = us; streamer = record x.streamer { streamer = next_streamer } })
  unfolding drain
  next-Consistent = record {
    engine_ok = seen.engine_ok;
    as_many = length-set tickers u.update.ticker_id (apply_update u.update m) ∙ seen.as_many;
    fed = seen.fed.1;
    mirrors = next_mirrors;
    current =
        drained (u ∷ []) x.streamer next_streamer seen.current (seen.fed.0.0, tt) (rw drains refl);
  }

pub streamer_takes_total :
    (n : ℕ) (q : List SnapshotUpdate) (x : Exchange)
    → x.streamer_q ≡ q
    → Consistent n x
    → (x' : Exchange) × (streamer_takes q x ≡ some x') × Consistent n x'
unfolding streamer_takes
streamer_takes_total n [] x e v = (x, refl, v)
streamer_takes_total n (u ∷ us) x e v =
    let fed : All (Fed n) (u.update ∷ map (λ w. w.update) us ++ x.market_update_q) =
      subst (λ q. All (Fed n) (map (λ w. w.update) q ++ x.market_update_q)) e v.fed in
    let (m, found) =
      get_elem?_in_range x.streamer.streamer.shadow_book.tickers u.update.ticker_id
        (subst (λ k. u.update.ticker_id < k) (sym v.as_many) fed.0.1) in
    (
      record x {
        streamer_q = us;
        streamer = record x.streamer { streamer = next_streamer n x u us m v e found };
      },
      rw (drains n x u us m v e found) refl,
      next-Consistent n x u us m v e found,
    )

pub streamer_takes-Consistent :
    (n : ℕ) (q : List SnapshotUpdate) (x x' : Exchange)
    → x.streamer_q ≡ q
    → Consistent n x
    → streamer_takes q x ≡ some x'
    → Consistent n x'
streamer_takes-Consistent n q x x' e v h =
    let (y, run, w) = streamer_takes_total n q x e v in
    subst (Consistent n) (one_result _ y x' run h) w

-- The streamer serves the connections that wait.
pub serve_turn_total :
    (lib : Library) (n : ℕ) (cs : List Connection) (x : Exchange)
    → Prompt cs
    → Consistent n x
    → (x' : Exchange) × (serve_turn lib cs x ≡ some x') × Consistent n x'
unfolding serve_turn
serve_turn_total lib n cs x p v =
    let (y, run, (_, cur, speaks)) =
      serve_requests-Kept lib.load cs x.streamer.streamer x.streamer p v.current (inl refl) in
    let same : x.streamer.streamer.shadow_book.tickers ≡ y.1.streamer.shadow_book.tickers =
      elim speaks [
        | inl f ↦ sym (ap (λ s. s.shadow_book.tickers) f)
        | inr f ↦ sym (ap (λ s. s.shadow_book.tickers) f)
      ] in
    (
      record x { streamer = y.1; replies = x.replies ++ y.0 },
      rw run refl,
      record {
        engine_ok = v.engine_ok;
        as_many = sym (ap length same) ∙ v.as_many;
        fed = v.fed;
        mirrors = λ t b m f g. v.mirrors t b m f (ap (λ l. get_elem? l t) same ∙ g);
        current = cur;
      },
    )

-- The gateway touches neither.
pub gateway_turn_total :
    (lib : Library) (n : ℕ) (now : ℕ → ℕ) (accepts : ℕ → ℕ → Bool) (retry : ℕ → Bool)
    (cs : List Callback) (x : Exchange)
    → Consistent n x
    → (x' : Exchange) × (gateway_turn lib now accepts retry cs x ≡ some x') × Consistent n x'
unfolding gateway_turn
gateway_turn_total lib n now accepts retry cs x v =
    let g : Gateway = record x.gateway { server = record x.gateway.server { published = [] } } in
    let (y, run) =
      gateway_round_total lib.ouch lib.sort accepts (timed now 0 x.response_q) retry cs g in
    (after_gateway x y, rw run refl, v)
