-- ===== src/VectorBook/Loops.antt =====
-- The loops of `match` over vectors end where those over std::map end, with the same done.
use nano_exchange.Base.{
  ℕ, zero, suc, ◌≡◌, refl, sym, ap, ◌∙◌, subst, not, ◌&&◌, inl, inr, Option, none, some, List, [],
  ◌∷◌, map, ltb, Bool-cases, ◌>>=◌,
}
use nano_exchange.Types.{MeOrder, PriceLevel}
use nano_exchange.Levels.{first, level_head}
use nano_exchange.MapBook.{Incoming, opposite, breaks}
use nano_exchange.MapBook
use nano_exchange.MapBook.Loop.{match_order_total}
use nano_exchange.VectorBook
use nano_exchange.VectorBook.Links.{Chain}
use nano_exchange.VectorBook.Slots.{prices}
use nano_exchange.VectorBook.Sides.{SideRefines}
use nano_exchange.VectorBook.Refines.{BookRefines, side-refines}
use nano_exchange.VectorBook.Matches.{
  without_match_id, MatchRefines, level_head-orders, fill_head-refines,
}
use nano_exchange.VectorBook.Resting.{resting-refines}

-- The run over vectors returns, with the same done.
abbrev Follows : Option VectorBook.Matching → MapBook.Matching → Type 0
Follows x m = (vm : VectorBook.Matching) × (x ≡ some vm) × MatchRefines vm m

match_level-refines :
    (n : ℕ) (i : Incoming) (p : ℕ) (vm : VectorBook.Matching) (m m' : MapBook.Matching)
    → MatchRefines vm m
    → MapBook.match_level n i p m ≡ some m'
    → Follows (VectorBook.match_level n i p vm) m'
unfolding MapBook.match_level VectorBook.match_level
match_level-refines zero i p vm m m' r h = cc
match_level-refines (suc n) i p vm m m' r h =
    go (level_head p (MapBook.levels (opposite i.side) m.book)) refl (λ o.
      match_level-refines n i p (VectorBook.fill_head i p o vm) (MapBook.fill_head i p o m) m')
  where
    same_head :
        first ((VectorBook.levels (opposite i.side) vm.book).slots p)
        ≡ level_head p (MapBook.levels (opposite i.side) m.book)
    same_head =
        ap first ((side-refines (opposite i.side) vm.book m.book r.books).at_price p)
        ∙ sym (level_head-orders p (MapBook.levels (opposite i.side) m.book))

    go :
        (x : Option MeOrder)
        → level_head p (MapBook.levels (opposite i.side) m.book) ≡ x
        → ((o : MeOrder)
            → MatchRefines (VectorBook.fill_head i p o vm) (MapBook.fill_head i p o m)
            → MapBook.match_level n i p (MapBook.fill_head i p o m) ≡ some m'
            → Follows (VectorBook.match_level n i p (VectorBook.fill_head i p o vm)) m')
        → Follows (VectorBook.match_level (suc n) i p vm) m'
    go none e ih =
        let k : some m ≡ some m' = rw (e, MapBook.match_level) at h in
        let f : m ≡ m' = cc in
        rw (same_head ∙ e, VectorBook.match_level) (vm, refl, subst (MatchRefines vm) f r)
    go (some o) e ih = elim (Bool-cases (ltb 0 m.remaining)) [
      | inl b ↦
          let k : MapBook.match_level n i p (MapBook.fill_head i p o m) ≡ some m' =
            rw b at (rw (e, MapBook.match_level) at h) in
          rw (same_head ∙ e, VectorBook.match_level)
            (rw (r.same_remaining, b) (ih o (fill_head-refines i p o vm m r e) k))
      | inr b ↦
          let k : some m ≡ some m' = rw b at (rw (e, MapBook.match_level) at h) in
          let f : m ≡ m' = cc in
          rw (same_head ∙ e, VectorBook.match_level)
            (rw (r.same_remaining, b) (vm, refl, subst (MatchRefines vm) f r))
    ]

match_loop-refines :
    (n k : ℕ) (i : Incoming) (vm : VectorBook.Matching) (m m' : MapBook.Matching)
    → MatchRefines vm m
    → MapBook.match_loop n k i m ≡ some m'
    → Follows (VectorBook.match_loop n k i vm) m'
unfolding MapBook.match_loop VectorBook.match_loop
match_loop-refines zero k i vm m m' r h = cc
match_loop-refines (suc n) k i vm m m' r h =
    go (MapBook.levels (opposite i.side) m.book) refl (λ vm1 m1. match_loop-refines n k i vm1 m1 m')
  where
    chain :
        (ls : List PriceLevel)
        → MapBook.levels (opposite i.side) m.book ≡ ls
        → Chain
            (VectorBook.levels (opposite i.side) vm.book).links
            none
            (VectorBook.levels (opposite i.side) vm.book).links.best
            (prices ls)
    chain ls e =
        subst
          (λ x.
            Chain (VectorBook.levels (opposite i.side) vm.book).links none
              (VectorBook.levels (opposite i.side) vm.book).links.best (prices x))
          e (side-refines (opposite i.side) vm.book m.book r.books).linked.chain

    stops : some m ≡ some m' → Follows (some vm) m'
    stops e = let f : m ≡ m' = cc in (vm, refl, subst (MatchRefines vm) f r)

    enters :
        (p : ℕ) (x : Option MapBook.Matching)
        → MapBook.match_level k i p m ≡ x
        → (x >>= λ m1. MapBook.match_loop n k i m1) ≡ some m'
        → ((vm1 : VectorBook.Matching) (m1 : MapBook.Matching)
            → MatchRefines vm1 m1
            → MapBook.match_loop n k i m1 ≡ some m'
            → Follows (VectorBook.match_loop n k i vm1) m')
        → Follows (VectorBook.match_level k i p vm >>= λ m1. VectorBook.match_loop n k i m1) m'
    enters p none e f ih = cc
    enters p (some m1) e f ih =
        let (vm1, run, r1) = match_level-refines k i p vm m m1 r e in
        let (vm2, run2, r2) = ih vm1 m1 r1 f in
        (vm2, ap (λ x. x >>= λ y. VectorBook.match_loop n k i y) run ∙ run2, r2)

    go :
        (ls : List PriceLevel)
        → MapBook.levels (opposite i.side) m.book ≡ ls
        → ((vm1 : VectorBook.Matching) (m1 : MapBook.Matching)
            → MatchRefines vm1 m1
            → MapBook.match_loop n k i m1 ≡ some m'
            → Follows (VectorBook.match_loop n k i vm1) m')
        → Follows (VectorBook.match_loop (suc n) k i vm) m'
    go [] e ih = rw (chain [] e, VectorBook.match_loop) (stops (rw (e, MapBook.match_loop) at h))
    go (l ∷ ls) e ih =
        elim (Bool-cases (ltb 0 m.remaining && not (breaks i.side i.price l.price))) [
          | inl b ↦
              rw ((chain (l ∷ ls) e).0, VectorBook.match_loop)
                (rw (r.same_remaining, b)
                  (enters l.price _ refl (rw b at (rw (e, MapBook.match_loop) at h)) ih))
          | inr b ↦
              rw ((chain (l ∷ ls) e).0, VectorBook.match_loop)
                (rw (r.same_remaining, b) (stops (rw b at (rw (e, MapBook.match_loop) at h))))
        ]

-- What a `match` over std::map has done, with the book over vectors.
abbrev pub over_vectors : VectorBook.MeOrderBook → MapBook.Matching → VectorBook.Matching
over_vectors vb m = record {
  book = vb;
  next_match_id = m.next_match_id;
  remaining = m.remaining;
  events = map without_match_id m.events;
}

MatchRefines-eq :
    (vm : VectorBook.Matching) (m : MapBook.Matching)
    → MatchRefines vm m
    → vm ≡ over_vectors vm.book m
MatchRefines-eq vm m r j = record {
  book = vm.book;
  next_match_id = r.same_match_id j;
  remaining = r.same_remaining j;
  events = r.same_events j;
}

-- `match` over vectors returns, with the fills of `match` over std::map.
pub match_order-refines :
    (i : Incoming) (nmid : ℕ) (vb : VectorBook.MeOrderBook) (b : MapBook.MeOrderBook)
    → BookRefines vb b
    → (m : MapBook.Matching) × (MapBook.match_order i nmid b ≡ some m)
      × ((vb' : VectorBook.MeOrderBook) × (VectorBook.match_order i nmid vb
            ≡ some (over_vectors vb' m))
          × BookRefines vb' m.book)
unfolding MapBook.match_order VectorBook.match_order
match_order-refines i nmid vb b r =
    let side : SideRefines (opposite i.side) _ _ = side-refines (opposite i.side) vb b r in
    let (m, run, _, _) = match_order_total i nmid b side.ok in
    let (vm, vrun, done) =
      match_loop-refines (MapBook.fuel i b) (MapBook.fuel i b) i _ _ m
        (record { books = r; same_match_id = refl; same_remaining = refl; same_events = refl })
        run in
    (
      m,
      run,
      (
        vm.book,
        rw (resting-refines (opposite i.side) _ _ side)
            (vrun ∙ ap some (MatchRefines-eq vm m done)),
        done.books,
      ),
    )
