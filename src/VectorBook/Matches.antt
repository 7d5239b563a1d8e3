-- ===== src/VectorBook/Matches.antt =====
-- `match` over vectors does what `match` over std::map does.
use nano_exchange.Base.{
  ℕ, ◌-◌, ◌≤◌, ◌≡◌, refl, sym, ap, ap₂, ◌∙◌, subst, inl, inr, some, List, [], ◌∷◌, map, min, ◌==◌,
  ==_refl, ==_iff, Bool-cases, All, if◌then◌else◌, inc64, arith,
}
use mathlib.Core.List.{map-append}
use nano_exchange.Types.{Side, MeOrder, PriceLevel, Event, response, update, order_id_invalid}
use nano_exchange.Levels.{first, level_head, OrderOk, SideOk, find_order}
use nano_exchange.Levels.Remove.{level_orders}
use nano_exchange.MapBook.{Incoming, opposite}
use nano_exchange.MapBook
use nano_exchange.VectorBook.{PriceLevels}
use nano_exchange.VectorBook
use nano_exchange.VectorBook.Refines.{BookRefines, side-refines, lower-refines}

-- The event, without the match that an update names.
abbrev pub without_match_id : Event → Event
without_match_id (response r) = response r
without_match_id (update u) = update (record u { match_id = order_id_invalid })

-- The two have done the same, but the updates of the book over vectors name no match.
pub record MatchRefines (vm : VectorBook.Matching) (m : MapBook.Matching) : Type 0 where
  pub books : BookRefines vm.book m.book
  pub same_match_id : vm.next_match_id ≡ m.next_match_id
  pub same_remaining : vm.remaining ≡ m.remaining
  pub same_events : vm.events ≡ map without_match_id m.events

-- What a level's head is.
pub level_head-orders : (p : ℕ) (ls : List PriceLevel) → level_head p ls ≡ first (level_orders p ls)
unfolding level_head
level_head-orders p [] = refl
level_head-orders p (l ∷ ls) = elim (Bool-cases (l.price == p)) [
  | inl e ↦ rw e refl
  | inr e ↦ rw e (level_head-orders p ls)
]

level_orders-ok :
    (s : Side) (p : ℕ) (ls : List PriceLevel) → SideOk s ls → All (OrderOk s p) (level_orders p ls)
level_orders-ok s p [] v = tt
level_orders-ok s p (l ∷ ls) v = elim (Bool-cases (l.price == p)) [
  | inl e ↦ rw e (subst (λ x. All (OrderOk s x) l.orders) ((==_iff l.price p).0 e) v.0.orders_ok)
  | inr e ↦ rw e (level_orders-ok s p ls v.2)
]

first-head :
    (P : MeOrder → Type 0) (os : List MeOrder) (o : MeOrder)
    → All P os
    → first os ≡ some o
    → P o × ((rest : List MeOrder) × (os ≡ o ∷ rest))
first-head P [] o k h = cc
first-head P (x ∷ os) o k h = let e : x ≡ o = cc in (subst P e k.0, (os, ap (λ y. y ∷ os) e))

find_order-head : (o : MeOrder) (os : List MeOrder) → find_order o.address (o ∷ os) ≡ some o
unfolding find_order
find_order-head o os = rw (==_refl o.address) refl

module _ (s : Side) (p q : ℕ) (o : MeOrder) (vb : VectorBook.MeOrderBook) (b : MapBook.MeOrderBook)
    (r : BookRefines vb b) (h : level_head p (MapBook.levels s b) ≡ some o) where
  head-orders :
      OrderOk s p o × ((os : List MeOrder) × (level_orders p (MapBook.levels s b) ≡ o ∷ os))
  head-orders =
      first-head (OrderOk s p) (level_orders p (MapBook.levels s b)) o
        (level_orders-ok s p (MapBook.levels s b) (side-refines s vb b r).ok)
        (sym (level_head-orders p (MapBook.levels s b)) ∙ h)

  own_level : (os : List MeOrder) × (level_orders o.price (MapBook.levels o.side b) ≡ o ∷ os)
  own_level =
      let (ok, (os, e)) = head-orders in
      (os, ap₂ (λ x t. level_orders x (MapBook.levels t b)) ok.at_price ok.on_side ∙ e)

  fill-refines :
      q ≤ o.remaining_quantity
      → BookRefines
          (if q == 0
            then VectorBook.remove o (VectorBook.set_remaining o q vb)
            else VectorBook.set_remaining o q vb)
          (if q == 0
            then MapBook.remove o (MapBook.set_remaining o q b)
            else MapBook.set_remaining o q b)
  fill-refines le =
      let (os, e) = own_level in
      let ok : OrderOk s p o = head-orders.0 in
      lower-refines o vb b r q (ap (find_order o.address) e ∙ find_order-head o os) ok.within le

module _ (i : Incoming) (p : ℕ) (o : MeOrder) (vm : VectorBook.Matching) (m : MapBook.Matching)
    (r : MatchRefines vm m) where
  pub fill_head-refines :
      level_head p (MapBook.levels (opposite i.side) m.book) ≡ some o
      → MatchRefines (VectorBook.fill_head i p o vm) (MapBook.fill_head i p o m)
  unfolding VectorBook.fill_head MapBook.fill_head
  fill_head-refines h = record {
    books = rw r.same_remaining (
        fill-refines (opposite i.side) p
          (o.remaining_quantity - min m.remaining o.remaining_quantity) o vm.book m.book r.books h
          (omega arith));
    same_match_id = ap inc64 r.same_match_id;
    same_remaining = ap (λ x. x - min x o.remaining_quantity) r.same_remaining;
    same_events =
        rw (r.same_remaining, r.same_match_id, r.same_events)
          (sym (map-append without_match_id m.events _));
  }
