-- ===== src/MapBook/Loop.antt =====
-- The loops of `match` end, and where they end.
use nano_exchange.Base.{
  ℕ, zero, suc, ◌<◌, ◌≤◌, ◌≡◌, ◌≢◌, ◌⊎◌, refl, sym, ap, ◌∙◌, ◌>>=◌, true, false, inl, inr, Option,
  none, some, List, [], ◌∷◌, arith, ◌==◌, Bool-cases, ltb, le→ltb, ltb→lt, ltb→le, All, length,
  length-append,
}
use nano_exchange.Types.{Side, buy, sell, MeOrder, PriceLevel}
use nano_exchange.Levels.{level_head, After, OrderOk, SideOk, keep_level, resting, Before}
use nano_exchange.Levels.Sorted.{After-trans}
use nano_exchange.Levels.Remove.{level_head_first, level_head-none, keep_level-SideOk}
use nano_exchange.MapBook.{
  MeOrderBook, Incoming, Matching, opposite, levels, fill_head, breaks, match_level, match_loop,
  match_order, fuel,
}
use nano_exchange.MapBook.Sides.{left_of}
use nano_exchange.MapBook.Fills.{CanFill, Fills, stop, more, Fills-trans, CanFill-levels}

-- Where the inner loop leaves off: nothing is wanted any more, or the level is gone.
abbrev LevelDone : Incoming → List PriceLevel → Matching → Type 0
LevelDone i ls m = (m.remaining ≡ 0) ⊎ (levels (opposite i.side) m.book ≡ ls)

remaining_fill :
    (i : Incoming) (p : ℕ) (o : MeOrder) (m : Matching)
    → (left_of o m == 0) ≡ false
    → (fill_head i p o m).remaining ≡ 0
unfolding fill_head
remaining_fill i p o m z = ground arith

done_at_once :
    (n : ℕ) (i : Incoming) (p : ℕ) (m : Matching)
    → 0 < n
    → m.remaining ≡ 0
    → match_level n i p m ≡ some m
unfolding match_level
done_at_once zero i p m h e = absurd (omega arith)
done_at_once (suc n) i p m h e = go (level_head p (levels (opposite i.side) m.book)) refl
  where
    go :
        (r : Option MeOrder)
        → level_head p (levels (opposite i.side) m.book) ≡ r
        → match_level (suc n) i p m ≡ some m
    go none f = rw (f, match_level)
    go (some o) f = rw (f, match_level) (rw (le→ltb 0 m.remaining (omega arith)))

match_level_runs :
    (n : ℕ) (i : Incoming) (p : ℕ) (os : List MeOrder) (ls : List PriceLevel) (m : Matching)
    → length os < n
    → levels (opposite i.side) m.book ≡ keep_level p os ls
    → breaks i.side i.price p ≡ false
    → All (OrderOk (opposite i.side) p) os
    → After (opposite i.side) p ls
    → SideOk (opposite i.side) ls
    → (m' : Matching) × (match_level n i p m ≡ some m') × Fills i m' m × LevelDone i ls m'
unfolding match_level
match_level_runs zero i p os ls m h e b ok a v = absurd (omega arith)
match_level_runs (suc n) i p [] ls m h e b ok a v =
    (m, rw (e, level_head-none (opposite i.side) p ls a, match_level), stop, inr e)
match_level_runs (suc n) i p (o ∷ os) ls m h e b ok a v = elim (Bool-cases (ltb 0 m.remaining)) [
  | inr f ↦ (
    m,
    done_at_once (suc n) i p m (omega arith)
        (let k : m.remaining ≤ 0 = ltb→le 0 m.remaining f in omega arith),
    stop,
    inl (let k : m.remaining ≤ 0 = ltb→le 0 m.remaining f in omega arith),
  )
  | inl f ↦
      let side : SideOk (opposite i.side) (record { price = p; orders = o ∷ os } ∷ ls) =
        keep_level-SideOk (opposite i.side) p (o ∷ os) ls ok a v in
      let k : CanFill i m p o os ls = record {
        best = e;
        wanted = ltb→lt 0 m.remaining f;
        reached = b;
        ok = side;
      } in
      let (m', run, fills, done) =
        rest k (λ e'. match_level_runs n i p os ls (fill_head i p o m) (omega arith) e' b ok.1 a v)
          (Bool-cases (left_of o m == 0)) in
      (m', rw (e, level_head_first p o os ls, match_level) (rw f run), more p o os ls k fills, done)
]
  where
    rest :
        CanFill i m p o os ls
        → (levels (opposite i.side) (fill_head i p o m).book ≡ keep_level p os ls
            → (m' : Matching) × (match_level n i p (fill_head i p o m) ≡ some m')
              × Fills i m' (fill_head i p o m)
              × LevelDone i ls m')
        → ((left_of o m == 0) ≡ true) ⊎ ((left_of o m == 0) ≡ false)
        → (m' : Matching) × (match_level n i p (fill_head i p o m) ≡ some m')
          × Fills i m' (fill_head i p o m)
          × LevelDone i ls m'
    rest k ih (inl z) = ih (CanFill-levels i m p o os ls k ∙ rw z)
    rest k ih (inr z) = (
      fill_head i p o m,
      done_at_once n i p (fill_head i p o m) (omega arith) (remaining_fill i p o m z),
      stop,
      inl (remaining_fill i p o m z),
    )

-- Where `match` leaves off: nothing is wanted, or no opposite price is reached.
abbrev pub Stopped : Incoming → Matching → Type 0
Stopped i m = (m.remaining ≡ 0) ⊎ After (opposite i.side) i.price (levels (opposite i.side) m.book)

breaks→Before : (s : Side) (x p : ℕ) → breaks s x p ≡ true → Before (opposite s) x p
breaks→Before buy x p h = ltb→lt x p h
breaks→Before sell x p h = ltb→lt p x h

-- No level holds more orders than the fuel of the inner loop.
abbrev Fits : ℕ → List PriceLevel → Type 0
Fits k = All (λ l. length l.orders < k)

keep_level_self :
    (p : ℕ) (os : List MeOrder) (ls : List PriceLevel)
    → os ≢ []
    → keep_level p os ls ≡ record { price = p; orders = os } ∷ ls
keep_level_self p [] ls h = absurd (h refl)
keep_level_self p (o ∷ os) ls h = refl

loop_done_at_once :
    (n k : ℕ) (i : Incoming) (m : Matching) → 0 < n → m.remaining ≡ 0 → match_loop n k i m ≡ some m
unfolding match_loop
loop_done_at_once zero k i m h e = absurd (omega arith)
loop_done_at_once (suc n) k i m h e = go (levels (opposite i.side) m.book) refl
  where
    go :
        (ls : List PriceLevel)
        → levels (opposite i.side) m.book ≡ ls
        → match_loop (suc n) k i m ≡ some m
    go [] f = rw (f, match_loop)
    go (l ∷ ls) f = rw (f, match_loop) (rw (le→ltb 0 m.remaining (omega arith)))

-- How a run from `m` ends.
abbrev Ends : ℕ → ℕ → Incoming → Matching → Type 0
Ends n k i m = (m' : Matching) × (match_loop n k i m ≡ some m') × Fills i m' m × Stopped i m'

match_loop_runs :
    (n k : ℕ) (i : Incoming) (m : Matching) (ls : List PriceLevel)
    → length ls < n
    → levels (opposite i.side) m.book ≡ ls
    → Fits k ls
    → SideOk (opposite i.side) ls
    → Ends n k i m
unfolding match_loop
match_loop_runs zero k i m ls h e f v = absurd (omega arith)
match_loop_runs (suc n) k i m [] h e f v = (m, rw (e, match_loop), stop, inr (rw e tt))
match_loop_runs (suc n) k i m (l ∷ ls) h e f v =
    split (Bool-cases (ltb 0 m.remaining)) (Bool-cases (breaks i.side i.price l.price))
      (λ m' e'. match_loop_runs n k i m' ls (omega arith) e' f.1 v.2)
  where
    after :
        (m1 : Matching)
        → LevelDone i ls m1
        → ((m' : Matching) → levels (opposite i.side) m'.book ≡ ls → Ends n k i m')
        → Ends n k i m1
    after m1 (inl z) ih = (m1, loop_done_at_once n k i m1 (omega arith) z, stop, inl z)
    after m1 (inr e') ih = ih m1 e'

    enter :
        (ltb 0 m.remaining ≡ true)
        → (breaks i.side i.price l.price ≡ false)
        → ((m' : Matching) → levels (opposite i.side) m'.book ≡ ls → Ends n k i m')
        → Ends (suc n) k i m
    enter a b ih =
        let (m1, run1, fills1, done) =
          match_level_runs k i l.price l.orders ls m f.0
            (e ∙ sym (keep_level_self l.price l.orders ls v.0.nonempty)) b v.0.orders_ok v.1 v.2 in
        let (m2, run2, fills2, stopped) = after m1 done ih in
        (
          m2,
          rw (e, match_loop) (rw (a, b) (ap (λ x. x >>= λ m'. match_loop n k i m') run1 ∙ run2)),
          Fills-trans i m1 m2 m fills1 fills2,
          stopped,
        )

    split :
        (ltb 0 m.remaining ≡ true) ⊎ (ltb 0 m.remaining ≡ false)
        → (breaks i.side i.price l.price ≡ true) ⊎ (breaks i.side i.price l.price ≡ false)
        → ((m' : Matching) → levels (opposite i.side) m'.book ≡ ls → Ends n k i m')
        → Ends (suc n) k i m
    split (inr a) b ih =
        let z : m.remaining ≤ 0 = ltb→le 0 m.remaining a in
        (m, loop_done_at_once (suc n) k i m (omega arith) (omega arith), stop, inl (omega arith))
    split (inl a) (inl b) ih =
        let x : Before (opposite i.side) i.price l.price = breaks→Before i.side i.price l.price b in
        (
          m,
          rw (e, match_loop) (rw (a, b)),
          stop,
          inr (rw e (x, After-trans (opposite i.side) i.price l.price ls x v.1)),
        )
    split (inl a) (inr b) ih = enter a b ih

length-resting : (s : Side) (ls : List PriceLevel) → SideOk s ls → length ls ≤ length (resting ls)
length-resting s [] v = omega arith
length-resting s (l ∷ ls) v = omega (
  arith,
  length-resting s ls v.2,
  length-append l.orders (resting ls),
  nonempty_pos l.orders v.0.nonempty,
)
  where
    nonempty_pos : (os : List MeOrder) → os ≢ [] → 0 < length os
    nonempty_pos [] h = absurd (h refl)
    nonempty_pos (o ∷ os) h = omega arith

resting-Fits : (k : ℕ) (ls : List PriceLevel) → length (resting ls) < k → Fits k ls
resting-Fits k [] h = tt
resting-Fits k (l ∷ ls) h = (
  omega (arith, length-append l.orders (resting ls)),
  resting-Fits k ls (omega (arith, length-append l.orders (resting ls))),
)

abbrev pub started : Incoming → ℕ → MeOrderBook → Matching
started i next_match_id b = record {
  book = b;
  next_match_id = next_match_id;
  remaining = i.initial_quantity;
  events = [];
}

-- `match` returns on every book whose opposite side is ordered: what it does is a sequence of
-- fills, and it stops where nothing is wanted any more or no opposite price is reached.
pub match_order_total :
    (i : Incoming) (next_match_id : ℕ) (b : MeOrderBook)
    → SideOk (opposite i.side) (levels (opposite i.side) b)
    → (m' : Matching) × (match_order i next_match_id b ≡ some m')
      × Fills i m' (started i next_match_id b)
      × Stopped i m'
unfolding match_order
match_order_total i next_match_id b v =
    match_loop_runs (fuel i b) (fuel i b) i (started i next_match_id b) _
      (omega (arith, length-resting (opposite i.side) (levels (opposite i.side) b) v)) refl
      (resting-Fits (fuel i b) (levels (opposite i.side) b) (omega arith)) v
