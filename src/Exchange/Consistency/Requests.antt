-- ===== src/Exchange/Consistency/Requests.antt =====
-- A round of the engine in the exchange.
use nano_exchange.Base.{
  ℕ, ◌+◌, ◌^◌, ◌<◌, ◌≡◌, ◌≢◌, refl, sym, ap, ◌∙◌, subst, inl, inr, some, List, [], ◌∷◌, ◌++◌, map,
  append_assoc, All, All-append, length, length-set, get_elem?, set, get_elem?-set,
  get_elem?-set_ne, get_elem?_in_range, ◌==◌, ==_iff, Bool-cases, one_result, arith,
}
use nano_exchange.Types.{MeClientRequest}
use nano_exchange.MapBook.{MeOrderBook}
use nano_exchange.MapBook.Operations.{Outcome}
use nano_exchange.MapBook.Soundness.{IsSound, follows}
use nano_exchange.Engine.{dispatch, process_client_request}
use nano_exchange.Engine.Progress.{FreshAt, dispatch-IsSound, All-get, All-set}
use nano_exchange.Market.Shadow.{Orders}
use nano_exchange.Market.Source.{OnFeed, dispatch-OnFeed}
use nano_exchange.Market.Mirror.{follow}
use nano_exchange.Market.Mirror.Additions.{MirrorsBook}
use nano_exchange.Market.Mirror.Agreement.{IsTold, dispatch-Mirrors}
use nano_exchange.Exchange.{Exchange, responses_of, updates_of, engine_takes}
use nano_exchange.Exchange.Pending.{
  pending, follow_ticker, Fed, follow_ticker-append, follow_ticker-own, follow_ticker-other,
  updates_of-Fed,
}
use nano_exchange.Exchange.Consistency.{shadows, Consistent, IsOrderly}

-- What a request is answered with, for the books, the feed and the shadow book alike.
record Answer (r : MeClientRequest) (b : MeOrderBook) (o : Outcome) : Type 0 where
  sound : IsSound o.book
  on_feed : All (OnFeed r.ticker_id) o.events
  mirrors : (m : Orders) → MirrorsBook b m → MirrorsBook o.book (follow o.events m)

answers :
    (a : ℕ) (r : MeClientRequest) (id : ℕ) (b : MeOrderBook)
    → IsSound b
    → FreshAt r.action a r id b
    → b.next_market_order_id + 1 < 2 ^ 64
    → IsTold r.action r b
    → (o : Outcome) × (dispatch r.action a r id b ≡ some o) × Answer r b o
answers a r id b v f fits told =
    let (o, run, sound) = dispatch-IsSound r.action a r id b v f in
    let (o', run', fed) =
      dispatch-OnFeed r.action a r id b v.valid
        (λ p e. let (x, d, _) = follows r.client_id r.client_order_id p b v e in (x, d)) in
    (
      o,
      run,
      record {
        sound = sound;
        on_feed =
            subst (λ (y : Outcome). All (OnFeed r.ticker_id) y.events) (one_result _ o' o run' run)
              fed;
        mirrors = λ m h.
            let (o2, run2, done) = dispatch-Mirrors r.action a r id b m v fits told h in
            subst (λ (y : Outcome). MirrorsBook y.book (follow y.events m))
              (one_result _ o2 o run2 run) done;
      },
    )

module _ (n : ℕ) (x : Exchange) (r : MeClientRequest) (rs : List MeClientRequest) (b : MeOrderBook)
    (o : Outcome) where
  -- The exchange after the request.
  abbrev after : Exchange
  after = record x {
    request_q = rs;
    engine = record {
      books = set x.engine.books r.ticker_id o.book;
      next_match_id = o.next_match_id;
      events = o.events;
    };
    response_q = x.response_q ++ responses_of o.events;
    market_update_q = x.market_update_q ++ updates_of o.events;
  }

  pending-after : pending after ≡ pending x ++ updates_of o.events
  pending-after =
      sym (append_assoc (map (λ u. u.update) x.streamer_q) x.market_update_q (updates_of o.events))

  after-Consistent :
      Consistent n x
      → get_elem? x.engine.books r.ticker_id ≡ some b
      → r.ticker_id < n
      → Answer r b o
      → Consistent n after
  after-Consistent v found lt w = record {
    engine_ok = record {
      sound = All-set IsSound x.engine.books r.ticker_id o.book v.engine_ok.sound w.sound;
      count = length-set x.engine.books r.ticker_id o.book ∙ v.engine_ok.count;
    };
    as_many = v.as_many;
    fed = subst (All (Fed n)) (sym pending-after) (
        All-append (Fed n) (pending x) _ v.fed
          (updates_of-Fed n r.ticker_id o.events lt w.on_feed));
    mirrors = mirrors';
    current = v.current;
  }
    where
      in_books : r.ticker_id < length x.engine.books
      in_books = subst (λ k. r.ticker_id < k) (sym v.engine_ok.count) lt

      path :
          (t : ℕ) (m : Orders)
          → follow_ticker t (pending after) m
            ≡ follow_ticker t (updates_of o.events) (follow_ticker t (pending x) m)
      path t m =
          ap (λ us. follow_ticker t us m) pending-after
          ∙ follow_ticker-append t (pending x) (updates_of o.events) m

      own :
          (b' : MeOrderBook) (m : Orders)
          → get_elem? after.engine.books r.ticker_id ≡ some b'
          → get_elem? (shadows x) r.ticker_id ≡ some m
          → MirrorsBook b' (follow_ticker r.ticker_id (pending after) m)
      own b' m h k =
          let e : o.book ≡ b' =
            one_result _ o.book b' (get_elem?-set x.engine.books r.ticker_id o.book in_books) h in
          subst (λ y. MirrorsBook y (follow_ticker r.ticker_id (pending after) m)) e
            (subst (MirrorsBook o.book)
              (sym (path r.ticker_id m ∙ follow_ticker-own r.ticker_id o.events _ w.on_feed))
              (w.mirrors _ (v.mirrors r.ticker_id b m found k)))

      other :
          (t : ℕ) (b' : MeOrderBook) (m : Orders)
          → r.ticker_id ≢ t
          → get_elem? after.engine.books t ≡ some b'
          → get_elem? (shadows x) t ≡ some m
          → MirrorsBook b' (follow_ticker t (pending after) m)
      other t b' m ne h k =
          subst (MirrorsBook b')
            (sym (path t m ∙ follow_ticker-other t r.ticker_id o.events _ ne w.on_feed))
            (v.mirrors t b' m (sym (get_elem?-set_ne x.engine.books o.book ne) ∙ h) k)

      mirrors' :
          (t : ℕ) (b' : MeOrderBook) (m : Orders)
          → get_elem? after.engine.books t ≡ some b'
          → get_elem? (shadows x) t ≡ some m
          → MirrorsBook b' (follow_ticker t (pending after) m)
      mirrors' t b' m h k = elim (Bool-cases (r.ticker_id == t)) [
        | inl e ↦
            let f : r.ticker_id ≡ t = (==_iff r.ticker_id t).0 e in
            subst (λ j. MirrorsBook b' (follow_ticker j (pending after) m)) f
              (own b' m (ap (get_elem? after.engine.books) f ∙ h)
                (ap (get_elem? (shadows x)) f ∙ k))
        | inr e ↦ other t b' m (λ f. ground (arith, e, f)) h k
      ]

-- The engine takes the next request, if there is one.
pub engine_takes_total :
    (n a : ℕ) (q : List MeClientRequest) (x : Exchange)
    → Consistent n x
    → ((r : MeClientRequest) (rs : List MeClientRequest) → q ≡ r ∷ rs → IsOrderly n a r x)
    → (x' : Exchange) × (engine_takes a q x ≡ some x') × Consistent n x'
unfolding engine_takes process_client_request
engine_takes_total n a [] x v admits = (x, refl, v)
engine_takes_total n a (r ∷ rs) x v admits =
    let w : IsOrderly n a r x = admits r rs refl in
    let (b, found) =
      get_elem?_in_range x.engine.books r.ticker_id
        (subst (λ k. r.ticker_id < k) (sym v.engine_ok.count) w.listed) in
    let (o, run, answer) =
      answers a r x.engine.next_match_id b
        (All-get IsSound x.engine.books r.ticker_id b v.engine_ok.sound found) (w.fresh b found)
        (w.numbered b found) (w.told b found) in
    (
      after n x r rs b o,
      rw found (rw run refl),
      after-Consistent n x r rs b o v found w.listed answer,
    )
