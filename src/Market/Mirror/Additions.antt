-- ===== src/Market/Mirror/Additions.antt =====
-- addOrder of src/engine/order_book/order_book_map.cpp and the shadow book of
-- src/network/market/snapshot_stream.h after what it pushes.
use nano_exchange.Base.{
  ℕ, ◌+◌, ◌^◌, ◌<◌, ◌≡◌, ◌⊎◌, refl, sym, ap, ◌∙◌, subst, inl, inr, some, [], ◌∷◌, ◌++◌, arith,
}
use nano_exchange.Types.{ResponseType, order_id_invalid, response, update}
use nano_exchange.MapBook.{MeOrderBook, Incoming, Matching, insert, own_response, new_order}
use nano_exchange.MapBook.Operations.{
  Outcome, bump, add_update, add_incoming, add_outcome, rest_or_kill,
}
use nano_exchange.MapBook.Loop.{started, match_order_total}
use nano_exchange.MapBook.Valid.{IsValid, valid_from}
use nano_exchange.MapBook.Invariant.{bump-IsValid}
use nano_exchange.MapBook.Index.{book_orders, insert-Splice}
use nano_exchange.Market.Shadow.{Orders, apply_update}
use nano_exchange.Market.Mirror.{
  Mirrors, Mirrors-next, below_ne, follow, follow-append, joins-Mirrors,
}
use nano_exchange.Market.Mirror.Updates.{add-Sets}
use nano_exchange.Market.Mirror.Trades.{Fills-Mirrors, Fills-next, insert-next}

-- The map of a ticker mirrors its book.
abbrev pub MirrorsBook : MeOrderBook → Orders → Type 0
MirrorsBook b m = Mirrors b.next_market_order_id (book_orders b) m

-- An order that joins the book under a new id, and its ADD.
pub insert-Mirrors :
    (a : ℕ) (i : Incoming) (q : ℕ) (b : MeOrderBook) (m : Orders)
    → Mirrors i.market_order_id (book_orders b) m
    → Mirrors
        (i.market_order_id + 1)
        (book_orders (insert a i q b))
        (apply_update (add_update i q) m)
insert-Mirrors a i q b m v =
    joins-Mirrors (new_order a i q) m (apply_update (add_update i q) m) (i.market_order_id + 1) _ _
      (insert-Splice a i q b) (add-Sets a i q m)
      (below_ne i.market_order_id (book_orders b) v.below) (omega arith)
      (Mirrors-next i.market_order_id (book_orders b) m v)

-- What follows the match in addOrder, and the updates that it pushes.
module _ (a : ℕ) (i : Incoming) (t : Matching) where
  rest_or_kill-cases :
      (((rest_or_kill a i t).book ≡ t.book) × ((rest_or_kill a i t).events ≡ t.events))
      ⊎ (((rest_or_kill a i t).book ≡ insert a i t.remaining t.book)
          × ((rest_or_kill a i t).events ≡ t.events ++ update (add_update i t.remaining) ∷ []))
      ⊎ (((rest_or_kill a i t).book ≡ t.book)
          × ((rest_or_kill a i t).events
              ≡ t.events
                ++ response
                    (own_response i ResponseType.canceled 0 i.price t.remaining order_id_invalid)
                  ∷ []))
  unfolding rest_or_kill
  rest_or_kill-cases = ground arith

  rest_or_kill-Mirrors :
      (m : Orders)
      → Mirrors i.market_order_id (book_orders t.book) (follow t.events m)
      → Mirrors
          (i.market_order_id + 1)
          (book_orders (rest_or_kill a i t).book)
          (follow (rest_or_kill a i t).events m)
  unfolding follow
  rest_or_kill-Mirrors m v =
      let later : Mirrors (i.market_order_id + 1) (book_orders t.book) (follow t.events m) =
        Mirrors-next i.market_order_id (book_orders t.book) (follow t.events m) v in
      elim rest_or_kill-cases [
        | inl (e, f) ↦ rw (e, f) later
        | inr (inl (e, f)) ↦
            rw (e, f, follow-append) (insert-Mirrors a i t.remaining t.book (follow t.events m) v)
        | inr (inr (e, f)) ↦ rw (e, f, follow-append) later
      ]

  rest_or_kill-next : (rest_or_kill a i t).book.next_market_order_id ≡ t.book.next_market_order_id
  rest_or_kill-next = elim rest_or_kill-cases [
    | inl (e, _) ↦ ap (λ x. x.next_market_order_id) e
    | inr (inl (e, _)) ↦ ap (λ x. x.next_market_order_id) e ∙ insert-next a i t.remaining t.book
    | inr (inr (e, _)) ↦ ap (λ x. x.next_market_order_id) e
  ]

-- The counter of ids after a call that draws one.
pub bumped :
    (b : MeOrderBook)
    → b.next_market_order_id + 1 < 2 ^ 64
    → (bump b).next_market_order_id ≡ b.next_market_order_id + 1
bumped b h = omega arith

pub add_incoming-Mirrors :
    (a : ℕ) (i : Incoming) (nmid : ℕ) (b : MeOrderBook) (m : Orders)
    → IsValid b
    → i.market_order_id ≡ b.next_market_order_id
    → b.next_market_order_id + 1 < 2 ^ 64
    → MirrorsBook b m
    → (r : Outcome) × (add_incoming a i nmid b ≡ some r) × MirrorsBook r.book (follow r.events m)
unfolding add_incoming follow
add_incoming-Mirrors a i nmid b m v e fits h =
    let (t, run, fills, _) =
      match_order_total i nmid (bump b)
        (valid_from i.side (bump b) (bump-IsValid b v)).opposite_ok in
    let start : Mirrors i.market_order_id (book_orders b) m =
      subst (λ n. Mirrors n (book_orders b) m) (sym e) h in
    let done : Mirrors (i.market_order_id + 1) (book_orders (rest_or_kill a i t).book)
        (follow (rest_or_kill a i t).events m) =
      rest_or_kill-Mirrors a i t m
        (Fills-Mirrors i i.market_order_id m t (started i nmid (bump b)) fills start) in
    let next : i.market_order_id + 1 ≡ (rest_or_kill a i t).book.next_market_order_id =
      ap (λ n. n + 1) e
      ∙ sym (
          rest_or_kill-next a i t
          ∙ Fills-next i t (started i nmid (bump b)) fills
          ∙ bumped b fits) in
    (
      add_outcome a i t,
      rw run refl,
      subst
          (λ n.
            Mirrors n (book_orders (rest_or_kill a i t).book)
              (follow (rest_or_kill a i t).events m))
          next done,
    )
