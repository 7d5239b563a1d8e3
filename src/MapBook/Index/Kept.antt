-- ===== src/MapBook/Index/Kept.antt =====
-- What an insertion and the fills of a `match` keep of the index.
use nano_exchange.Base.{
  ℕ, ◌≡◌, ◌≢◌, refl, sym, ap, ap₂, ◌∙◌, subst, false, ◌&&◌, inl, inr, some, List, ◌==◌, ==_refl,
  if◌then◌else◌, Bool-cases, arith,
}
use nano_exchange.Types.{MeOrder, PriceLevel}
use nano_exchange.Levels.{OrderOk, find_order}
use nano_exchange.Levels.Remove.{level_orders}
use nano_exchange.Levels.Find.{find_order-All}
use nano_exchange.Levels.Splice.{
  address_of, Distinct, Splice-All, All-Splice, Splice-Distinct, find_order-Splice,
  find_order-Splice_other,
}
use nano_exchange.MapBook.{
  MeOrderBook, Incoming, Matching, opposite, levels, new_order, insert, remove, set_remaining,
  fill_head,
}
use nano_exchange.MapBook.Sides.{left_of}
use nano_exchange.MapBook.Fills.{CanFill, Fills, stop, more, CanFill-OrderOk}
use nano_exchange.MapBook.Index.{
  IsIndexed, Fresh, Found, book_orders, insert-Splice, remove-Splice, set_remaining-Splice,
  remove-IsIndexed, set_remaining-IsIndexed, remove-set_remaining, keys_eq,
}

-- An order that joins at an address that no resting order has.
pub insert-IsIndexed :
    (a : ℕ) (i : Incoming) (q : ℕ) (b : MeOrderBook)
    → Fresh a b
    → IsIndexed b
    → IsIndexed (insert a i q b)
insert-IsIndexed a i q b fresh v = record { distinct = distinct'; points = points' }
  where
    o : MeOrder
    o = new_order a i q

    distinct' : Distinct (book_orders (insert a i q b))
    distinct' = Splice-Distinct address_of o _ _ (insert-Splice a i q b) fresh v.distinct

    points' :
        (c k x : ℕ)
        → (insert a i q b).orders c k ≡ some x
        → (y : MeOrder) × (find_order x (book_orders (insert a i q b)) ≡ some y)
          × (y.client_id ≡ c)
          × (y.client_order_id ≡ k)
    points' c k x e = elim (Bool-cases ((i.client_id == c) && (i.client_order_id == k))) [
      | inl t ↦
          let f : some a ≡ some x = unfold insert in (rw t at e) in
          let g : a ≡ x = cc in
          let (kc, kk) = keys_eq i.client_id i.client_order_id c k t in
          (
            o,
            ap (λ y. find_order y (book_orders (insert a i q b))) (sym g)
                ∙ find_order-Splice o _ _ (insert-Splice a i q b) distinct',
            kc,
            kk,
          )
      | inr t ↦
          let f : b.orders c k ≡ some x = unfold insert in (rw t at e) in
          let (y, found, kc, kk) = v.points c k x f in
          let (at, away) = find_order-All (λ z. z.address ≢ a) x (book_orders b) y found fresh in
          let n : (a == x) ≡ false = ground (arith, at, away) in
          (y, find_order-Splice_other x o _ _ (insert-Splice a i q b) n ∙ found, kc, kk)
    ]

-- An order that is found is left `q` of its shares, or taken out where none is left.
module _ (o : MeOrder) (b : MeOrderBook) (h : Found o b) (q : ℕ) where
  lower-IsIndexed :
      IsIndexed b
      → IsIndexed (if q == 0 then remove o (set_remaining o q b) else set_remaining o q b)
  lower-IsIndexed v = elim (Bool-cases (q == 0)) [
    | inl z ↦ rw z (subst IsIndexed (sym (remove-set_remaining o q b)) (remove-IsIndexed o b v h))
    | inr z ↦ rw z (set_remaining-IsIndexed o b v h q)
  ]

  lower-Fresh :
      (a : ℕ)
      → Fresh a b
      → Fresh a (if q == 0 then remove o (set_remaining o q b) else set_remaining o q b)
  lower-Fresh a f =
      let (p, k) = All-Splice (λ x. x.address ≢ a) o _ _ (remove-Splice o b h) f in
      elim (Bool-cases (q == 0)) [
        | inl z ↦ rw z (subst (Fresh a) (sym (remove-set_remaining o q b)) k)
        | inr z ↦ rw z (Splice-All (λ x. x.address ≢ a) _ _ _ (set_remaining-Splice o b h q) p k)
      ]

pub CanFill-Found :
    (i : Incoming) (m : Matching) (p : ℕ) (o : MeOrder) (os : List MeOrder) (ls : List PriceLevel)
    → CanFill i m p o os ls
    → Found o m.book
unfolding find_order
CanFill-Found i m p o os ls k =
    let ok : OrderOk (opposite i.side) p o = CanFill-OrderOk i m p o os ls k in
    ap₂ (λ x t. find_order o.address (level_orders x (levels t m.book))) ok.at_price ok.on_side
    ∙ ap (λ x. find_order o.address (level_orders p x)) k.best
    ∙ rw (==_refl p) (rw (==_refl o.address) refl)

pub Fills-IsIndexed :
    (i : Incoming) (m' m : Matching) → Fills i m' m → IsIndexed m.book → IsIndexed m'.book
unfolding fill_head
Fills-IsIndexed i m' m stop v = v
Fills-IsIndexed i m' m (more p o os ls k f) v =
    Fills-IsIndexed i m' (fill_head i p o m) f
      (lower-IsIndexed o m.book (CanFill-Found i m p o os ls k) (left_of o m) v)

pub Fills-Fresh :
    (a : ℕ) (i : Incoming) (m' m : Matching) → Fills i m' m → Fresh a m.book → Fresh a m'.book
unfolding fill_head
Fills-Fresh a i m' m stop v = v
Fills-Fresh a i m' m (more p o os ls k f) v =
    Fills-Fresh a i m' (fill_head i p o m) f
      (lower-Fresh o m.book (CanFill-Found i m p o os ls k) (left_of o m) a v)
