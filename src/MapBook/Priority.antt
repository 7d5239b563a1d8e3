-- ===== src/MapBook/Priority.antt =====
-- What `match` should do, said of the opposite orders in one queue by price and then by arrival,
-- with no levels, loops or pointers.
use nano_exchange.Base.{
  ℕ, ◌-◌, ◌<◌, ◌≡◌, ◌≢◌, ◌⊎◌, refl, sym, ap, ◌∙◌, subst, true, false, ◌||◌, inl, inr, some, List,
  [], ◌∷◌, ◌++◌, min, arith, ◌==◌, if◌then◌else◌, Bool-cases, lt→ltb, inc64, All,
}
use nano_exchange.Types.{Side, buy, sell, MeOrder, PriceLevel, Event}
use nano_exchange.Levels.{After, OrderOk, SideOk, keep_level, resting, Before}
use nano_exchange.MapBook.{
  MeOrderBook, Incoming, Matching, opposite, levels, fill_head, breaks, match_order, fill_events,
}
use nano_exchange.MapBook.Sides.{left_of, filled}
use nano_exchange.MapBook.Fills.{
  CanFill, Fills, stop, more, Fills-SideOk, CanFill-levels, CanFill-OrderOk,
}
use nano_exchange.MapBook.Loop.{started, match_order_total}

pub record Served : Type 0 where
  pub remaining : ℕ
  pub rest : List MeOrder
  pub next_match_id : ℕ
  pub events : List Event

-- Serve the queue front to back with `q` shares, and stop at the first price out of reach.
unfoldable pub serve : Incoming → ℕ → ℕ → List Event → List MeOrder → Served
serve i id q es [] = record { remaining = q; rest = []; next_match_id = id; events = es }
serve i id q es (o ∷ os) =
    let fill : ℕ = min q o.remaining_quantity in
    let left : ℕ = o.remaining_quantity - fill in
    let es' : List Event = es ++ fill_events i o.price id fill left (q - fill) o in
    let next : Served = serve i (inc64 id) (q - fill) es' os in
    if (q == 0) || breaks i.side i.price o.price
    then record { remaining = q; rest = o ∷ os; next_match_id = id; events = es }
    else if left == 0
    then next
    else record {
      remaining = q - fill;
      rest = record o { remaining_quantity = left } ∷ os;
      next_match_id = inc64 id;
      events = es';
    }

-- The opposite queue of a state, and the rest of what `serve` speaks of.
abbrev pub queue : Incoming → MeOrderBook → List MeOrder
queue i b = resting (levels (opposite i.side) b)

abbrev pub served : Incoming → Matching → Served
served i m = record {
  remaining = m.remaining;
  rest = queue i m.book;
  next_match_id = m.next_match_id;
  events = m.events;
}

abbrev serve_from : Incoming → Matching → Served
serve_from i m = serve i m.next_match_id m.remaining m.events (queue i m.book)

resting-keep_level :
    (p : ℕ) (os : List MeOrder) (ls : List PriceLevel)
    → resting (keep_level p os ls) ≡ os ++ resting ls
resting-keep_level p [] ls = refl
resting-keep_level p (o ∷ os) ls = refl

serve_nothing :
    (i : Incoming) (id q : ℕ) (es : List Event) (os : List MeOrder)
    → q ≡ 0
    → serve i id q es os ≡ record { remaining = q; rest = os; next_match_id = id; events = es }
unfolding serve
serve_nothing i id q es [] e = refl
serve_nothing i id q es (o ∷ os) e = let f : (q == 0) ≡ true = ground arith in rw f

module _ (i : Incoming) (m : Matching) (p : ℕ) (o : MeOrder) (os : List MeOrder)
    (ls : List PriceLevel) (k : CanFill i m p o os ls) where
  at_price : o.price ≡ p
  at_price = (CanFill-OrderOk i m p o os ls k).at_price

  wants : (m.remaining == 0) ≡ false
  wants = let h : 0 < m.remaining = k.wanted in ground arith

  reaches : breaks i.side i.price o.price ≡ false
  reaches = rw at_price k.reached

  abbrev fill_es : List Event
  fill_es =
      m.events
      ++ fill_events i o.price m.next_match_id (min m.remaining o.remaining_quantity) (left_of o m)
          (m.remaining - min m.remaining o.remaining_quantity) o

  abbrev q' : ℕ
  q' = m.remaining - min m.remaining o.remaining_quantity

  serve_whole :
      (left_of o m == 0) ≡ true
      → serve i m.next_match_id m.remaining m.events (o ∷ os ++ resting ls)
        ≡ serve i (inc64 m.next_match_id) q' fill_es (os ++ resting ls)
  unfolding serve
  serve_whole z = rw (wants, reaches, z)

  serve_part :
      (left_of o m == 0) ≡ false
      → serve i m.next_match_id m.remaining m.events (o ∷ os ++ resting ls) ≡ record {
        remaining = q';
        rest = record o { remaining_quantity = left_of o m } ∷ os ++ resting ls;
        next_match_id = inc64 m.next_match_id;
        events = fill_es;
      }
  unfolding serve
  serve_part z = rw (wants, reaches, z)

  fill_fields :
      ((fill_head i p o m).next_match_id ≡ inc64 m.next_match_id)
      × ((fill_head i p o m).remaining ≡ q')
      × ((fill_head i p o m).events ≡ fill_es)
  unfolding fill_head
  fill_fields = (refl, refl, rw at_price)

  fill_queue : queue i (fill_head i p o m).book ≡ resting (filled p o os ls (left_of o m))
  fill_queue = ap resting (CanFill-levels i m p o os ls k)

  serve_head : serve_from i m ≡ serve i m.next_match_id m.remaining m.events (o ∷ os ++ resting ls)
  serve_head = ap (λ x. serve i m.next_match_id m.remaining m.events (resting x)) k.best

  serve-filled :
      serve i (inc64 m.next_match_id) q' fill_es (resting (filled p o os ls (left_of o m)))
      ≡ serve i m.next_match_id m.remaining m.events (o ∷ os ++ resting ls)
  serve-filled = elim (Bool-cases (left_of o m == 0)) [
    | inl z ↦ rw (serve_whole z) (rw z (ap (serve i _ _ _) (resting-keep_level p os ls)))
    | inr z ↦
        rw (serve_part z)
          (rw z (serve_nothing i (inc64 m.next_match_id) q' fill_es _ (ground arith)))
  ]

  serve_fill : serve_from i (fill_head i p o m) ≡ serve_from i m
  serve_fill =
      rw (fill_fields.0, fill_fields.1, fill_fields.2, fill_queue) (serve-filled ∙ sym serve_head)

serve-Fills : (i : Incoming) (m' m : Matching) → Fills i m' m → serve_from i m' ≡ serve_from i m
serve-Fills i m' m stop = refl
serve-Fills i m' m (more p o os ls k f) =
    serve-Fills i m' (fill_head i p o m) f ∙ serve_fill i m p o os ls k

pub Before→breaks : (s : Side) (x p : ℕ) → Before (opposite s) x p → breaks s x p ≡ true
Before→breaks buy x p h = lt→ltb x p h
Before→breaks sell x p h = lt→ltb p x h

serve_out_of_reach :
    (i : Incoming) (id q : ℕ) (es : List Event) (p : ℕ) (os rest : List MeOrder)
    → os ≢ []
    → Before (opposite i.side) i.price p
    → All (OrderOk (opposite i.side) p) os
    → serve i id q es (os ++ rest)
      ≡ record { remaining = q; rest = os ++ rest; next_match_id = id; events = es }
unfolding serve
serve_out_of_reach i id q es p [] rest h b ok = absurd (h refl)
serve_out_of_reach i id q es p (o ∷ os) rest h b ok =
    let f : breaks i.side i.price o.price ≡ true =
      Before→breaks i.side i.price o.price
        (subst (Before (opposite i.side) i.price) (sym ok.0.at_price) b) in
    elim (Bool-cases (q == 0)) [ inl z ↦ rw z | inr z ↦ rw (z, f) ]

serve_stopped :
    (i : Incoming) (id q : ℕ) (es : List Event) (ls : List PriceLevel)
    → SideOk (opposite i.side) ls
    → (q ≡ 0) ⊎ After (opposite i.side) i.price ls
    → serve i id q es (resting ls)
      ≡ record { remaining = q; rest = resting ls; next_match_id = id; events = es }
serve_stopped i id q es ls v (inl z) = serve_nothing i id q es (resting ls) z
serve_stopped i id q es [] v (inr a) = unfold serve in refl
serve_stopped i id q es (l ∷ ls) v (inr a) =
    serve_out_of_reach i id q es l.price l.orders (resting ls) v.0.nonempty a.0 v.0.orders_ok

-- `match` returns, and what it leaves of the quantity and of the opposite orders, the match ids
-- that it draws and its pushes are those of serving the opposite orders one by one, best price
-- first and earliest first at a price, if the opposite side is ordered by price.
pub match_order-serve :
    (i : Incoming) (next_match_id : ℕ) (b : MeOrderBook)
    → SideOk (opposite i.side) (levels (opposite i.side) b)
    → (m' : Matching) × (match_order i next_match_id b ≡ some m')
      × (served i m' ≡ serve i next_match_id i.initial_quantity [] (queue i b))
match_order-serve i next_match_id b v =
    let (m', run, fills, stopped) = match_order_total i next_match_id b v in
    (
      m',
      run,
      sym (
            serve_stopped i m'.next_match_id m'.remaining m'.events
              (levels (opposite i.side) m'.book)
              (Fills-SideOk i m' (started i next_match_id b) fills v) stopped)
          ∙ serve-Fills i m' (started i next_match_id b) fills,
    )
