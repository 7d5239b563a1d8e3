-- ===== src/Exchange/Progress.antt =====
-- The shadow book of the exchange catches up.
use nano_exchange.Base.{
  ℕ, ◌+◌, ◌<◌, ◌≡◌, refl, sym, ap, ◌∙◌, subst, true, some, List, [], ◌∷◌, ◌++◌, map, All,
  All-middle, length, length-append, replicate, get_elem?, get_elem?_in_range, if◌then◌else◌, ◌>>=◌,
  arith,
}
use nano_exchange.Types.{MeMarketUpdate}
use nano_exchange.MapBook.{MeOrderBook}
use nano_exchange.Market.Shadow.{Orders}
use nano_exchange.Market.Replay.{SnapshotUpdate}
use nano_exchange.Market.Recovery.{publish_one_total}
use nano_exchange.Market.Publisher.{publish_one, queued}
use nano_exchange.Market.Mirror.Additions.{MirrorsBook}
use nano_exchange.Exchange.{
  Library, Exchange, Turn, publisher_runs, streamer_drains, take_turn, take_turns, publisher_takes,
  streamer_takes,
}
use nano_exchange.Exchange.Pending.{Fed}
use nano_exchange.Exchange.Consistency.{Consistent, shadows}
use nano_exchange.Exchange.Consistency.Feed.{
  publisher_takes-Consistent, streamer_takes-Consistent, drains, next_streamer,
}
use nano_exchange.Exchange.Schedules.{Reachable, Reachable-Consistent, settled}

-- The engine is as it was, and no update is on its way.
record CaughtUp (n : ℕ) (x x' : Exchange) : Type 0 where
  same_engine : x'.engine ≡ x.engine
  none_made : x'.market_update_q ≡ []
  none_sent : x'.streamer_q ≡ []
  agree : Consistent n x'

-- The turns lead from one exchange to one that has caught up.
abbrev Leads : Library → ℕ → List Turn → Exchange → Type 0
Leads lib n ts x = (x' : Exchange) × (take_turns lib ts x ≡ some x') × CaughtUp n x x'

-- A first turn before others.
after_turn :
    (lib : Library) (n : ℕ) (t : Turn) (ts : List Turn) (x y : Exchange)
    → take_turn lib t x ≡ some y
    → y.engine ≡ x.engine
    → Leads lib n ts y
    → Leads lib n (t ∷ ts) x
unfolding take_turns
after_turn lib n t ts x y took same (x', run, c) = (
  x',
  ap (λ o. o >>= λ z. take_turns lib ts z) took ∙ run,
  record {
    same_engine = c.same_engine ∙ same;
    none_made = c.none_made;
    none_sent = c.none_sent;
    agree = c.agree;
  },
)

-- The streamer takes what has been sent.
drains_lead :
    (lib : Library) (n : ℕ) (q : List SnapshotUpdate) (x : Exchange)
    → x.streamer_q ≡ q
    → x.market_update_q ≡ []
    → x.running.streamer ≡ true
    → Consistent n x
    → Leads lib n (replicate (length q) streamer_drains) x
unfolding take_turns take_turn streamer_takes
drains_lead lib n [] x e made on v =
    (x, refl, record { same_engine = refl; none_made = made; none_sent = e; agree = v })
drains_lead lib n (u ∷ us) x e made on v =
    let fed : All (Fed n) (u.update ∷ map (λ w. w.update) us ++ x.market_update_q) =
      subst (λ q. All (Fed n) (map (λ w. w.update) q ++ x.market_update_q)) e v.fed in
    let (m, found) =
      get_elem?_in_range (shadows x) u.update.ticker_id
        (subst (λ k. u.update.ticker_id < k) (sym v.as_many) fed.0.1) in
    let y : Exchange = record x {
      streamer_q = us;
      streamer = record x.streamer { streamer = next_streamer n x u us m v e found };
    } in
    let takes : streamer_takes (u ∷ us) x ≡ some y = rw (drains n x u us m v e found) refl in
    after_turn lib n streamer_drains (replicate (length us) streamer_drains) x y
      (ap (λ b. if b then streamer_takes x.streamer_q x else some x) on
        ∙ ap (λ q. streamer_takes q x) e
        ∙ takes)
      refl
      (drains_lead lib n us y refl made on (streamer_takes-Consistent n (u ∷ us) x y e v takes))

-- The publisher sends what the engine has made, and then the streamer takes it.
abbrev pub catching_up : ℕ → Exchange → List Turn
catching_up ns x =
    replicate (length x.market_update_q) (publisher_runs ns)
    ++ replicate (length x.streamer_q + length x.market_update_q) streamer_drains

turns_lead :
    (lib : Library) (n ns : ℕ) (q : List MeMarketUpdate) (k : ℕ) (x : Exchange)
    → x.market_update_q ≡ q
    → length x.streamer_q + length q ≡ k
    → x.running.publisher ≡ true
    → x.running.streamer ≡ true
    → Consistent n x
    → Leads lib n (replicate (length q) (publisher_runs ns) ++ replicate k streamer_drains) x
unfolding take_turn publisher_takes
turns_lead lib n ns [] k x e count on on' v =
    let sent : length x.streamer_q ≡ k = omega (arith, count) in
    subst (λ j. Leads lib n (replicate j streamer_drains) x) sent
      (drains_lead lib n x.streamer_q x refl e on' v)
turns_lead lib n ns (u ∷ us) k x e count on on' v =
    let fed : All (Fed n) (map (λ w. w.update) x.streamer_q ++ u ∷ us) =
      subst (λ q. All (Fed n) (map (λ w. w.update) x.streamer_q ++ q)) e v.fed in
    let (bytes, made) =
      publish_one_total lib.itch ns u x.next_seq_num
        (All-middle (Fed n) (map (λ w. w.update) x.streamer_q) u us fed).0 in
    let new : List SnapshotUpdate = queued (publish_one lib.itch ns u x.next_seq_num) [] in
    let one : length new ≡ 1 = ap (λ o. length (queued o [])) made in
    let y : Exchange = publisher_takes lib ns (u ∷ us) x in
    after_turn lib n (publisher_runs ns)
      (replicate (length us) (publisher_runs ns) ++ replicate k streamer_drains) x y
      (ap (λ b. if b then some (publisher_takes lib ns x.market_update_q x) else some x) on
        ∙ ap (λ q. some (publisher_takes lib ns q x)) e)
      refl
      (turns_lead lib n ns us k y refl (omega (arith, count, one, length-append x.streamer_q new))
        on on' (publisher_takes-Consistent lib n ns (u ∷ us) x e v))

-- Of all turns that may come, in whatever order the threads of the exchange have taken them: where
-- the publisher and the streamer run, as many turns of the publisher as it has updates waiting, and
-- then as many of the streamer as there are updates on their way, all return, leave the engine as
-- it is, empty the queues of the updates, and bring every ticker's map of the shadow book to mirror
-- the engine's book of it. The turns are those that may come: every request that the engine took
-- was of a ticker that it has, with an address not in use when its order is inserted and an
-- exchange id to spare; no cancel left a part of an order, and no replacement reached the other
-- side, since of these the shadow book is told otherwise; no receive of the streamer waited longer
-- than its deadline; and no queue was full for a push that waits.
pub catches_up :
    (lib : Library) (n max_pending pool_size ns : ℕ) (x : Exchange)
    → Reachable lib n max_pending pool_size x
    → x.running.publisher ≡ true
    → x.running.streamer ≡ true
    → (x' : Exchange) × (take_turns lib (catching_up ns x) x ≡ some x')
      × (x'.engine ≡ x.engine)
      × (x'.market_update_q ≡ [])
      × (x'.streamer_q ≡ [])
      × ((t : ℕ) (b : MeOrderBook) (m : Orders)
          → get_elem? x'.engine.books t ≡ some b
          → get_elem? (shadows x') t ≡ some m
          → MirrorsBook b m)
catches_up lib n p q ns x w on on' =
    let (x', run, c) =
      turns_lead lib n ns x.market_update_q (length x.streamer_q + length x.market_update_q) x refl
        refl on on' (Reachable-Consistent lib n p q x w) in
    (
      x',
      run,
      c.same_engine,
      c.none_made,
      c.none_sent,
      λ t b m h k. settled n x' c.none_made c.none_sent c.agree t b m h k,
    )
