-- ===== src/Exchange/Pending.antt =====
-- The updates that are on their way from the engine to the shadow book, by ticker.
use nano_exchange.Base.{
  ℕ, ◌<◌, ◌≡◌, ◌≢◌, refl, sym, ap, ◌∙◌, subst, true, false, List, [], ◌∷◌, ◌++◌, map, All, ◌==◌,
  ==_iff, if◌then◌else◌, arith,
}
use nano_exchange.Types.{MeMarketUpdate, Event, response, update}
use nano_exchange.Market.Shadow.{Orders, apply_update, changes}
use nano_exchange.Market.Source.{OnFeed}
use nano_exchange.Market.Mirror.{follow}
use nano_exchange.Exchange.{Exchange, updates_of}

-- All that the engine has pushed and the streamer has not taken, in order.
abbrev pub pending : Exchange → List MeMarketUpdate
pending x = map (λ u. u.update) x.streamer_q ++ x.market_update_q

-- What a ticker's map comes to when the updates of all tickers have passed.
abbrev pub follow_ticker : ℕ → List MeMarketUpdate → Orders → Orders
follow_ticker t [] m = m
follow_ticker t (u ∷ us) m = follow_ticker t us (if u.ticker_id == t then apply_update u m else m)

-- An update of the incremental feed, about a ticker that there is.
abbrev pub Fed : ℕ → MeMarketUpdate → Type 0
Fed n u = (changes u.update_type ≡ true) × (u.ticker_id < n)

pub follow_ticker-append :
    (t : ℕ) (us vs : List MeMarketUpdate) (m : Orders)
    → follow_ticker t (us ++ vs) m ≡ follow_ticker t vs (follow_ticker t us m)
follow_ticker-append t [] vs m = refl
follow_ticker-append t (u ∷ us) vs m = follow_ticker-append t us vs _

pub follow_ticker-own :
    (t : ℕ) (es : List Event) (m : Orders)
    → All (OnFeed t) es
    → follow_ticker t (updates_of es) m ≡ follow es m
unfolding follow
follow_ticker-own t [] m h = refl
follow_ticker-own t (response r ∷ es) m h = follow_ticker-own t es m h.1
follow_ticker-own t (update u ∷ es) m h =
    let e : (u.ticker_id == t) ≡ true = (==_iff u.ticker_id t).1 h.0.1 in
    ap (λ b. follow_ticker t (updates_of es) (if b then apply_update u m else m)) e
    ∙ follow_ticker-own t es (apply_update u m) h.1

pub follow_ticker-other :
    (t k : ℕ) (es : List Event) (m : Orders)
    → k ≢ t
    → All (OnFeed k) es
    → follow_ticker t (updates_of es) m ≡ m
follow_ticker-other t k [] m n h = refl
follow_ticker-other t k (response r ∷ es) m n h = follow_ticker-other t k es m n h.1
follow_ticker-other t k (update u ∷ es) m n h =
    let e : (u.ticker_id == t) ≡ false = ground (arith, h.0.1, n) in
    ap (λ b. follow_ticker t (updates_of es) (if b then apply_update u m else m)) e
    ∙ follow_ticker-other t k es m n h.1

pub updates_of-Fed :
    (n t : ℕ) (es : List Event) → t < n → All (OnFeed t) es → All (Fed n) (updates_of es)
updates_of-Fed n t [] lt h = tt
updates_of-Fed n t (response r ∷ es) lt h = updates_of-Fed n t es lt h.1
updates_of-Fed n t (update u ∷ es) lt h =
    ((h.0.0, subst (λ k. k < n) (sym h.0.1) lt), updates_of-Fed n t es lt h.1)
