-- ===== src/Market/Mirror/Agreement.antt =====
-- The shadow book of src/network/market/snapshot_stream.h after what a request to the book of
-- src/engine/order_book/order_book_map.cpp pushes.
use nano_exchange.Base.{
  ℕ, ◌+◌, ◌^◌, ◌<◌, ◌≤◌, ◌≡◌, ◌⊎◌, refl, sym, subst, true, false, inl, inr, Option, none, some,
  ◌==◌, ◌||◌, Bool-cases, arith,
}
use nano_exchange.Types.{
  Side, buy, sell, OrderType, OrderToken, ClientRequestType, MeClientRequest, MeOrder,
}
use nano_exchange.Levels.{After}
use nano_exchange.MapBook.{MeOrderBook, opposite, levels, remove}
use nano_exchange.MapBook.Operations.{
  Outcome, deref, bump, add_order, incoming, replace_order, cancel_found, cancel_order, reject,
  not_found,
}
use nano_exchange.MapBook.Soundness.{IsSound, follows}
use nano_exchange.Engine.{dispatch}
use nano_exchange.Market.Shadow.{Orders}
use nano_exchange.Market.Mirror.{follow}
use nano_exchange.Market.Mirror.Additions.{MirrorsBook, add_incoming-Mirrors}
use nano_exchange.Market.Mirror.Removals.{cancel_found-Mirrors, replace_found-Mirrors}

-- The order that a request names, where the book has one.
abbrev pub Names : MeOrderBook → ℕ → ℕ → MeOrder → Type 0
Names b c k o = (a : ℕ) × (b.orders c k ≡ some a) × (deref a b ≡ some o)

-- A cancel is of all shares that rest, or more; a replacement does not reach the other side.
abbrev pub IsTold : ClientRequestType → MeClientRequest → MeOrderBook → Type 0
IsTold ClientRequestType.new r b = Unit {0}
IsTold ClientRequestType.cancel r b =
    (o : MeOrder)
    → Names b r.client_id r.client_order_id o
    → (r.qty ≡ 0) ⊎ (o.remaining_quantity ≤ r.qty)
IsTold ClientRequestType.modify r b =
    (o : MeOrder)
    → Names b r.client_id r.client_order_id o
    → After (opposite o.side) r.price (levels (opposite o.side) b)

other_side :
    (s : Side) (o : MeOrder) (b : MeOrderBook)
    → o.side ≡ s
    → levels (opposite s) (remove o (bump b)) ≡ levels (opposite s) b
unfolding remove
other_side buy o b e = rw e refl
other_side sell o b e = rw e refl

cancel_order-Mirrors :
    (t c k qty : ℕ) (tok : OrderToken) (nmid : ℕ) (b : MeOrderBook) (m : Orders)
    → IsSound b
    → ((o : MeOrder) → Names b c k o → (qty ≡ 0) ⊎ (o.remaining_quantity ≤ qty))
    → MirrorsBook b m
    → (r : Outcome) × (cancel_order t c k qty tok nmid b ≡ some r)
      × MirrorsBook r.book (follow r.events m)
unfolding cancel_order follow
cancel_order-Mirrors t c k qty tok nmid b m v told h = go (b.orders c k) refl
  where
    go :
        (x : Option ℕ)
        → b.orders c k ≡ x
        → (r : Outcome) × (cancel_order t c k qty tok nmid b ≡ some r)
          × MirrorsBook r.book (follow r.events m)
    go none e = (reject (not_found t c k tok) nmid b, rw (e, cancel_order) refl, h)
    go (some a) e =
        let (o, d, found) = follows c k a b v e in
        (
          cancel_found t c k qty o nmid b,
          rw (e, cancel_order) (rw d refl),
          cancel_found-Mirrors t c k qty o nmid b m (told o (a, e, d)) found h,
        )

replace_order-Mirrors :
    (a t c k k' : ℕ) (type : OrderType) (p q : ℕ) (tok : OrderToken) (nmid : ℕ) (b : MeOrderBook)
    (m : Orders)
    → IsSound b
    → b.next_market_order_id + 1 < 2 ^ 64
    → ((o : MeOrder) → Names b c k o → After (opposite o.side) p (levels (opposite o.side) b))
    → MirrorsBook b m
    → (r : Outcome) × (replace_order a t c k k' type p q tok nmid b ≡ some r)
      × MirrorsBook r.book (follow r.events m)
unfolding replace_order follow
replace_order-Mirrors a t c k k' type p q tok nmid b m v fits told h =
    go (b.orders c k) refl (Bool-cases ((k' == 0) || (q == 0)))
  where
    go :
        (x : Option ℕ)
        → b.orders c k ≡ x
        → (((k' == 0) || (q == 0)) ≡ true) ⊎ (((k' == 0) || (q == 0)) ≡ false)
        → (r : Outcome) × (replace_order a t c k k' type p q tok nmid b ≡ some r)
          × MirrorsBook r.book (follow r.events m)
    go none e f = (reject (not_found t c k tok) nmid b, rw (e, replace_order) refl, h)
    go (some x) e (inl f) =
        (reject (not_found t c k tok) nmid b, rw (e, replace_order) (rw f refl), h)
    go (some x) e (inr f) =
        let (o, d, found) = follows c k x b v e in
        let (r, run, mirrors) =
          replace_found-Mirrors a (incoming t c k' type p q o.side tok b) o nmid b m v.valid refl
            fits (ground (arith, f)) found
            (subst (After (opposite o.side) p) (sym (other_side o.side o b refl))
              (told o (x, e, d)))
            h in
        (r, rw (e, replace_order) (rw f (rw d run)), mirrors)

-- A request of any type to a sound book that a ticker's map of the shadow book mirrors, where the
-- exchange ids last: the book answers it, and the map that has followed the updates that it pushes
-- mirrors the book again. A cancel is of all shares that rest, or more, and a replacement does not
-- reach the other side.
pub dispatch-Mirrors :
    (action : ClientRequestType) (a : ℕ) (r : MeClientRequest) (nmid : ℕ) (b : MeOrderBook)
    (m : Orders)
    → IsSound b
    → b.next_market_order_id + 1 < 2 ^ 64
    → IsTold action r b
    → MirrorsBook b m
    → (o : Outcome) × (dispatch action a r nmid b ≡ some o) × MirrorsBook o.book (follow o.events m)
unfolding dispatch add_order
dispatch-Mirrors ClientRequestType.new a r nmid b m v fits told h =
    add_incoming-Mirrors a
      (incoming r.ticker_id r.client_id r.client_order_id r.order_type r.price r.qty r.side
        r.order_token b)
      nmid b m v.valid refl fits h
dispatch-Mirrors ClientRequestType.cancel a r nmid b m v fits told h =
    cancel_order-Mirrors r.ticker_id r.client_id r.client_order_id r.qty r.order_token nmid b m v
      told h
dispatch-Mirrors ClientRequestType.modify a r nmid b m v fits told h =
    replace_order-Mirrors a r.ticker_id r.client_id r.client_order_id r.new_client_order_id
      r.order_type r.price r.qty r.order_token nmid b m v fits told h
