-- ===== src/MapBook/Conservation.antt =====
-- Shares are neither lost nor made up by a match, and no trade is worse than the limit.
use nano_exchange.Base.{
  ℕ, ◌+◌, ◌-◌, ◌≤◌, ◌≡◌, ltb→le, refl, sym, subst, false, inl, inr, some, List, [], ◌∷◌, ◌++◌, min,
  ◌==◌, ◌||◌, Bool-cases, All, All-append, arith, inc64,
}
use nano_exchange.Types.{
  Side, buy, sell, UpdateType, MeOrder, Event, response, update, MeMarketUpdate,
}
use nano_exchange.Levels.{SideOk}
use nano_exchange.MapBook.{
  MeOrderBook, Incoming, Matching, opposite, levels, breaks, match_order, fill_events,
}
use nano_exchange.MapBook.Priority.{Served, serve, queue, served, match_order-serve}

-- The shares that the orders of a queue still want.
abbrev pub shares : List MeOrder → ℕ
shares [] = 0
shares (o ∷ os) = o.remaining_quantity + shares os

abbrev pub traded_by : MeMarketUpdate → UpdateType → ℕ
traded_by u UpdateType.trade = u.qty
traded_by u UpdateType.add = 0
traded_by u _ = 0

-- The shares of the trades that the events announce.
abbrev pub traded : List Event → ℕ
traded [] = 0
traded (response r ∷ es) = traded es
traded (update u ∷ es) = traded_by u u.update_type + traded es

traded-append : (es fs : List Event) → traded (es ++ fs) ≡ traded es + traded fs
traded-append [] fs = omega arith
traded-append (response r ∷ es) fs = traded-append es fs
traded-append (update u ∷ es) fs = omega (arith, traded-append es fs)

record Conserved (q : ℕ) (es : List Event) (os : List MeOrder) (r : Served) : Type 0 where
  taken : r.remaining + traded r.events ≡ q + traded es
  given : shares r.rest + traded r.events ≡ shares os + traded es

serve-Conserved :
    (i : Incoming) (id q : ℕ) (es : List Event) (os : List MeOrder)
    → Conserved q es os (serve i id q es os)
unfolding serve
serve-Conserved i id q es [] = record { taken = refl; given = refl }
serve-Conserved i id q es (o ∷ os) =
    let fill : ℕ = min q o.remaining_quantity in
    let left : ℕ = o.remaining_quantity - fill in
    let new : List Event = fill_events i o.price id fill left (q - fill) o in
    let rec : Conserved (q - fill) (es ++ new) os (serve i (inc64 id) (q - fill) (es ++ new) os) =
      serve-Conserved i (inc64 id) (q - fill) (es ++ new) os in
    let both : traded (es ++ new) ≡ traded es + (fill + 0) = traded-append es new in
    let taken : _ = rec.taken in
    let given : _ = rec.given in
    elim (Bool-cases ((q == 0) || breaks i.side i.price o.price)) [
      | inl e ↦ rw e (record { taken = refl; given = refl })
      | inr e ↦ rw e (elim (Bool-cases (left == 0)) [
        | inl z ↦
            rw z (record {
              taken = omega arith;
              given = let w : left ≡ 0 = ground arith in omega arith;
            })
        | inr z ↦ rw z (record { taken = omega arith; given = omega arith })
      ])
    ]

-- `match` returns; what the incoming order wants and does not get is what remains of it, and the
-- opposite orders together lose what it gets: the shares of the trades announced, if the opposite
-- side is ordered.
pub match_order-conserves :
    (i : Incoming) (nmid : ℕ) (b : MeOrderBook)
    → SideOk (opposite i.side) (levels (opposite i.side) b)
    → (m : Matching) × (match_order i nmid b ≡ some m)
      × (m.remaining + traded m.events ≡ i.initial_quantity)
      × (shares (queue i m.book) + traded m.events ≡ shares (queue i b))
match_order-conserves i nmid b v =
    let (m, run, e) = match_order-serve i nmid b v in
    let c : Conserved i.initial_quantity [] (queue i b) (served i m) =
      subst (Conserved i.initial_quantity [] (queue i b)) (sym e)
        (serve-Conserved i nmid i.initial_quantity [] (queue i b)) in
    let taken : _ = c.taken in let given : _ = c.given in (m, run, omega arith, omega arith)

-- A buyer pays its limit at most, a seller gets its limit at least.
abbrev pub Acceptable : Side → ℕ → ℕ → Type 0
Acceptable buy limit price = price ≤ limit
Acceptable sell limit price = limit ≤ price

-- A trade at a price within the limit of the incoming order.
abbrev pub WithinLimit : Incoming → Event → Type 0
WithinLimit i (response r) = Acceptable i.side i.price r.execution_price
WithinLimit i (update u) = Acceptable i.side i.price u.price

breaks→Acceptable : (s : Side) (limit p : ℕ) → breaks s limit p ≡ false → Acceptable s limit p
breaks→Acceptable buy limit p h = ltb→le limit p h
breaks→Acceptable sell limit p h = ltb→le p limit h

serve-WithinLimit :
    (i : Incoming) (id q : ℕ) (es : List Event) (os : List MeOrder)
    → All (WithinLimit i) es
    → All (WithinLimit i) (serve i id q es os).events
unfolding serve
serve-WithinLimit i id q es [] h = h
serve-WithinLimit i id q es (o ∷ os) h =
    let fill : ℕ = min q o.remaining_quantity in
    let left : ℕ = o.remaining_quantity - fill in
    let new : List Event = fill_events i o.price id fill left (q - fill) o in
    elim (Bool-cases (q == 0)) [
      | inl z ↦ rw z h
      | inr z ↦ rw z (elim (Bool-cases (breaks i.side i.price o.price)) [
        | inl e ↦ rw e h
        | inr e ↦
            let ok : Acceptable i.side i.price o.price =
              breaks→Acceptable i.side i.price o.price e in
            let more : All (WithinLimit i) (es ++ new) =
              All-append (WithinLimit i) es new h (ok, (ok, (ok, tt))) in
            rw e (elim (Bool-cases (left == 0)) [
              | inl f ↦ rw f (serve-WithinLimit i (inc64 id) (q - fill) (es ++ new) os more)
              | inr f ↦ rw f more
            ])
      ])
    ]

-- `match` returns, and every execution that it reports, to either client or to the market, is at a
-- price within the limit of the incoming order, at most it for a buyer and at least it for a
-- seller, if the opposite side is ordered.
pub match_order-WithinLimit :
    (i : Incoming) (nmid : ℕ) (b : MeOrderBook)
    → SideOk (opposite i.side) (levels (opposite i.side) b)
    → (m : Matching) × (match_order i nmid b ≡ some m) × All (WithinLimit i) m.events
match_order-WithinLimit i nmid b v =
    let (m, run, e) = match_order-serve i nmid b v in
    (
      m,
      run,
      subst (λ (r : Served). All (WithinLimit i) r.events) (sym e)
          (serve-WithinLimit i nmid i.initial_quantity [] (queue i b) tt),
    )
