-- ===== src/Market/Mirror.antt =====
-- The shadow book of src/network/market/snapshot_stream.h beside the book of the engine, whose
-- updates it follows: what the one says of an order, and what the other holds of it.
pub mod Updates
pub mod Trades
pub mod Additions
pub mod Removals
pub mod Agreement
use nano_exchange.Base.{
  ℕ, ◌+◌, ◌-◌, ◌<◌, ◌≡◌, ◌≢◌, refl, sym, ap, ◌∙◌, subst, true, false, inl, inr, Option, none, some,
  List, [], ◌∷◌, ◌++◌, All, All-map, leb, ◌==◌, ==_iff, ==_refl, if◌then◌else◌, Bool-cases,
  Option-cases, arith,
}
use nano_exchange.Types.{Side, MeMarketUpdate, MeOrder, Event, response, update}
use nano_exchange.Levels.Splice.{
  Splice, here, there, DistinctBy, Splice-All, All-Splice, Splice-Distinct, Distinct-Splice,
}
use nano_exchange.MapBook.{Incoming, new_order, trade_update}
use nano_exchange.MapBook.Operations.{add_update, cancel_update}
use nano_exchange.Market.Shadow.{Orders, find, apply_update, known, find-apply_as}

-- Of the updates of a ticker, one after the other, what its map comes to.
unfoldable pub follow : List Event → Orders → Orders
follow [] m = m
follow (response r ∷ es) m = follow es m
follow (update u ∷ es) m = follow es (apply_update u m)

pub follow-append :
    (es fs : List Event) (m : Orders) → follow (es ++ fs) m ≡ follow fs (follow es m)
unfolding follow
follow-append [] fs m = refl
follow-append (response r ∷ es) fs m = follow-append es fs m
follow-append (update u ∷ es) fs m = follow-append es fs (apply_update u m)

-- What the public knows of a resting order.
pub record Shown : Type 0 where
  pub side : Side
  pub price : ℕ
  pub qty : ℕ

abbrev pub as_order : MeOrder → Shown
as_order o = record { side = o.side; price = o.price; qty = o.remaining_quantity }

abbrev pub as_update : MeMarketUpdate → Shown
as_update u = record { side = u.side; price = u.price; qty = u.qty }

abbrev pub as_known : Option MeMarketUpdate → Option Shown
as_known none = none
as_known (some u) = some (as_update u)

abbrev pub id_of : MeOrder → ℕ
id_of o = o.market_order_id

-- The resting order that the exchange calls `j`.
unfoldable pub shown : ℕ → List MeOrder → Option Shown
shown j [] = none
shown j (o ∷ os) = if o.market_order_id == j then some (as_order o) else shown j os

-- The map has, under its exchange id, each of the orders with its side, price and shares, and
-- nothing else; no two orders have one id, and every id is below `next`.
pub record Mirrors (next : ℕ) (os : List MeOrder) (m : Orders) : Type 0 where
  pub same : (j : ℕ) → as_known (find j m) ≡ shown j os
  pub unique : DistinctBy id_of os
  pub below : All (λ o. o.market_order_id < next) os

shown_absent : (j : ℕ) (os : List MeOrder) → All (λ o. o.market_order_id ≢ j) os → shown j os ≡ none
unfolding shown
shown_absent j [] h = refl
shown_absent j (o ∷ os) h =
    let e : (o.market_order_id == j) ≡ false = ground (arith, h.0) in rw e (shown_absent j os h.1)

-- Where an order stands does not matter.
pub shown-Splice :
    (j : ℕ) (o : MeOrder) (xs ys : List MeOrder)
    → Splice o xs ys
    → DistinctBy id_of xs
    → shown j xs ≡ (if o.market_order_id == j then some (as_order o) else shown j ys)
unfolding shown
shown-Splice j o _ _ (here xs) d = refl
shown-Splice j o _ _ (there x xs ys s) d =
    let (p, _) = All-Splice (λ y. y.market_order_id ≢ x.market_order_id) o xs ys s d.0 in
    elim (Bool-cases (o.market_order_id == j)) [
      | inl e ↦
          let f : (x.market_order_id == j) ≡ false =
            ground (arith, p, (==_iff o.market_order_id j).0 e) in
          rw (e, f) (shown-Splice j o xs ys s d.1 ∙ rw e refl)
      | inr e ↦ rw e (elim (Bool-cases (x.market_order_id == j)) [
        | inl f ↦ rw f refl
        | inr f ↦ rw f (shown-Splice j o xs ys s d.1 ∙ rw e refl)
      ])
    ]

module _ (next : ℕ) (o : MeOrder) (xs ys : List MeOrder) (s : Splice o xs ys) where
  -- Without the order.
  pub shown_without :
      (j : ℕ)
      → DistinctBy id_of xs
      → shown j ys ≡ (if o.market_order_id == j then none else shown j xs)
  shown_without j d = elim (Bool-cases (o.market_order_id == j)) [
    | inl e ↦ rw e (
        subst (λ k. shown k ys ≡ none) ((==_iff o.market_order_id j).0 e)
          (shown_absent o.market_order_id ys (Distinct-Splice id_of o xs ys s d).0))
    | inr e ↦ rw e (sym (shown-Splice j o xs ys s d ∙ rw e refl))
  ]

  pub without-kept :
      DistinctBy id_of xs
      → All (λ x. x.market_order_id < next) xs
      → DistinctBy id_of ys × All (λ x. x.market_order_id < next) ys
  without-kept d b = (
    (Distinct-Splice id_of o xs ys s d).1,
    (All-Splice (λ x. x.market_order_id < next) o xs ys s b).1,
  )

-- What a change of the map at the id of one order does, with the same change of the orders.
module _ (o : MeOrder) (m m' : Orders) where
  -- The map says `x` of the order now, and of the others what it said.
  abbrev pub Sets : Option Shown → Type 0
  Sets x =
      (j : ℕ) → as_known (find j m') ≡ (if o.market_order_id == j then x else as_known (find j m))

  pub leaves-Mirrors :
      (next : ℕ) (xs ys : List MeOrder)
      → Splice o xs ys
      → Sets none
      → Mirrors next xs m
      → Mirrors next ys m'
  leaves-Mirrors next xs ys s h v =
      let (unique, below) = without-kept next o xs ys s v.unique v.below in
      record {
        same = λ j.
            h j
            ∙ ap (λ x. if o.market_order_id == j then none else x) (v.same j)
            ∙ sym (shown_without next o xs ys s j v.unique);
        unique = unique;
        below = below;
      }

  pub joins-Mirrors :
      (next : ℕ) (xs ys : List MeOrder)
      → Splice o xs ys
      → Sets (some (as_order o))
      → All (λ x. x.market_order_id ≢ o.market_order_id) ys
      → o.market_order_id < next
      → Mirrors next ys m
      → Mirrors next xs m'
  joins-Mirrors next xs ys s h away lt v =
      let unique : DistinctBy id_of xs = Splice-Distinct id_of o xs ys s away v.unique in
      record {
        same = λ j.
            h j
            ∙ ap (λ x. if o.market_order_id == j then some (as_order o) else x) (v.same j)
            ∙ sym (shown-Splice j o xs ys s unique);
        unique = unique;
        below = Splice-All (λ x. x.market_order_id < next) o xs ys s lt v.below;
      }

-- The order is left `q` of its shares.
pub lowers-Mirrors :
    (o : MeOrder) (q : ℕ) (m m' : Orders) (next : ℕ) (xs ys zs : List MeOrder)
    → Splice o xs ys
    → Splice (record o { remaining_quantity = q }) zs ys
    → Sets o m m' (some (as_order (record o { remaining_quantity = q })))
    → Mirrors next xs m
    → Mirrors next zs m'
lowers-Mirrors o q m m' next xs ys zs s t h v =
    let o' : MeOrder = record o { remaining_quantity = q } in
    let (away, d) = Distinct-Splice id_of o xs ys s v.unique in
    let (lt, b) = All-Splice (λ x. x.market_order_id < next) o xs ys s v.below in
    let unique : DistinctBy id_of zs = Splice-Distinct id_of o' zs ys t away d in
    record {
      same = λ j. h j ∙ other j ∙ sym (shown-Splice j o' zs ys t unique);
      unique = unique;
      below = Splice-All (λ x. x.market_order_id < next) o' zs ys t lt b;
    }
  where
    other :
        (j : ℕ)
        → (if o.market_order_id == j
            then some (as_order (record o { remaining_quantity = q }))
            else as_known (find j m))
          ≡ (if o.market_order_id == j
              then some (as_order (record o { remaining_quantity = q }))
              else shown j ys)
    other j = elim (Bool-cases (o.market_order_id == j)) [
      | inl e ↦ rw e refl
      | inr e ↦ rw e (v.same j ∙ shown-Splice j o xs ys s v.unique ∙ rw e refl)
    ]

-- Orders with ids below a number have not that number.
pub below_ne :
    (n : ℕ) (os : List MeOrder)
    → All (λ o. o.market_order_id < n) os
    → All (λ o. o.market_order_id ≢ n) os
below_ne n [] h = tt
below_ne n (o ∷ os) h = (λ e. omega (arith, e, h.0), below_ne n os h.1)

-- The counter of ids has moved on.
pub Mirrors-next : (n : ℕ) (os : List MeOrder) (m : Orders) → Mirrors n os m → Mirrors (n + 1) os m
Mirrors-next n os m v = record {
  same = v.same;
  unique = v.unique;
  below = All-map (λ o. o.market_order_id < n) _ os (λ x h. omega arith) v.below;
}
