-- ===== src/Market/Mirror/Trades.antt =====
-- The fills of a `match` of src/engine/order_book/order_book_map.cpp and the trades that they
-- announce, beside the shadow book.
use nano_exchange.Base.{
  ℕ, ◌-◌, ◌≡◌, refl, sym, ◌∙◌, subst, inl, inr, some, List, none, min, ◌==◌, ==_refl, if◌then◌else◌,
  Bool-cases,
}
use nano_exchange.Types.{Side, buy, sell, MeOrder, PriceLevel, Event}
use nano_exchange.MapBook.{
  MeOrderBook, Incoming, Matching, with_levels, insert, remove, set_remaining, fill_head,
  fill_events, trade_update,
}
use nano_exchange.MapBook.Sides.{left_of}
use nano_exchange.MapBook.Fills.{Fills, stop, more}
use nano_exchange.MapBook.Index.{
  Found, book_orders, remove-Splice, set_remaining-Splice, remove-set_remaining,
}
use nano_exchange.MapBook.Index.Kept.{CanFill-Found}
use nano_exchange.Market.Shadow.{Orders, find, apply_update}
use nano_exchange.Market.Mirror.{
  Mirrors, Sets, follow, follow-append, shown-Splice, as_known, as_order, leaves-Mirrors,
  lowers-Mirrors,
}
use nano_exchange.Market.Mirror.Updates.{trade-Sets}

-- What the map says of an order that rests.
pub same_order :
    (o : MeOrder) (b : MeOrderBook) (next : ℕ) (m : Orders)
    → Found o b
    → Mirrors next (book_orders b) m
    → as_known (find o.market_order_id m) ≡ some (as_order o)
same_order o b next m h v =
    v.same o.market_order_id
    ∙ shown-Splice o.market_order_id o _ _ (remove-Splice o b h) v.unique
    ∙ rw (==_refl o.market_order_id) refl

-- One fill, and its trade.
trade-Mirrors :
    (i : Incoming) (id fill : ℕ) (o : MeOrder) (b : MeOrderBook) (next : ℕ) (m : Orders)
    → Found o b
    → Mirrors next (book_orders b) m
    → Mirrors next
        (book_orders (
          if o.remaining_quantity - fill == 0
          then remove o (set_remaining o (o.remaining_quantity - fill) b)
          else set_remaining o (o.remaining_quantity - fill) b))
        (apply_update (trade_update i id fill o) m)
trade-Mirrors i id fill o b next m h v =
    let left : ℕ = o.remaining_quantity - fill in
    let m' : Orders = apply_update (trade_update i id fill o) m in
    let sets : Sets o m m'
        (if left == 0 then none else some (as_order (record o { remaining_quantity = left }))) =
      trade-Sets i id fill o m (same_order o b next m h v) in
    elim (Bool-cases (left == 0)) [
      | inl z ↦ rw z (
          subst (λ x. Mirrors next (book_orders x) m') (sym (remove-set_remaining o left b))
            (leaves-Mirrors o m m' next _ _ (remove-Splice o b h) (rw z at sets) v))
      | inr z ↦ rw z (
          lowers-Mirrors o left m m' next _ _ _ (remove-Splice o b h)
            (set_remaining-Splice o b h left) (rw z at sets) v)
    ]

-- All fills of a `match`.
pub Fills-Mirrors :
    (i : Incoming) (next : ℕ) (m : Orders) (t' t : Matching)
    → Fills i t' t
    → Mirrors next (book_orders t.book) (follow t.events m)
    → Mirrors next (book_orders t'.book) (follow t'.events m)
unfolding fill_head follow
Fills-Mirrors i next m t' t stop v = v
Fills-Mirrors i next m t' t (more p o os ls k f) v =
    let fill : ℕ = min t.remaining o.remaining_quantity in
    let new : List Event =
      fill_events i p t.next_match_id fill (left_of o t) (t.remaining - fill) o in
    Fills-Mirrors i next m t' (fill_head i p o t) f (
      subst (Mirrors next (book_orders (fill_head i p o t).book))
        (sym (follow-append t.events new m))
        (trade-Mirrors i t.next_match_id fill o t.book next (follow t.events m)
          (CanFill-Found i t p o os ls k) v))

-- The counter of exchange ids is not touched by a match.

with_levels-next :
    (s : Side) (b : MeOrderBook) (ls : List PriceLevel)
    → (with_levels s b ls).next_market_order_id ≡ b.next_market_order_id
with_levels-next buy b ls = refl
with_levels-next sell b ls = refl

pub remove-next :
    (o : MeOrder) (b : MeOrderBook) → (remove o b).next_market_order_id ≡ b.next_market_order_id
unfolding remove
remove-next o b = with_levels-next o.side b _

set_remaining-next :
    (o : MeOrder) (q : ℕ) (b : MeOrderBook)
    → (set_remaining o q b).next_market_order_id ≡ b.next_market_order_id
unfolding set_remaining
set_remaining-next o q b = with_levels-next o.side b _

pub insert-next :
    (a : ℕ) (i : Incoming) (q : ℕ) (b : MeOrderBook)
    → (insert a i q b).next_market_order_id ≡ b.next_market_order_id
unfolding insert
insert-next a i q b = with_levels-next i.side b _

pub Fills-next :
    (i : Incoming) (t' t : Matching)
    → Fills i t' t
    → t'.book.next_market_order_id ≡ t.book.next_market_order_id
unfolding fill_head
Fills-next i t' t stop = refl
Fills-next i t' t (more p o os ls k f) = Fills-next i t' (fill_head i p o t) f ∙ one
  where
    one : (fill_head i p o t).book.next_market_order_id ≡ t.book.next_market_order_id
    one = elim (Bool-cases (left_of o t == 0)) [
      | inl z ↦ rw z (
          remove-next o (set_remaining o (left_of o t) t.book)
          ∙ set_remaining-next o (left_of o t) t.book)
      | inr z ↦ rw z (set_remaining-next o (left_of o t) t.book)
    ]
