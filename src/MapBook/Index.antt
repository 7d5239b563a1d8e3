-- ===== src/MapBook/Index.antt =====
-- The index `orders_` never dangles: what the writes of the book keep of it.
pub mod Kept
use nano_exchange.Base.{
  ℕ, ◌-◌, ◌≡◌, ◌≢◌, refl, sym, ap, ap₂, ◌∙◌, subst, true, false, ◌&&◌, inl, inr, Option, none, some,
  List, [], ◌∷◌, ◌++◌, All, ◌==◌, ==_iff, ==_refl, if◌then◌else◌, Bool-cases, arith,
}
use nano_exchange.Types.{Side, buy, sell, MeOrder, PriceLevel}
use nano_exchange.Levels.{resting, find_order, append_order, remove_order, write_remaining}
use nano_exchange.Levels.Remove.{level_orders, remove-write}
use nano_exchange.Levels.Find.{find_order-All}
use nano_exchange.Levels.Splice.{
  Splice, address_of, Distinct, Splice-append, Splice-behind, Splice-All, All-Splice,
  Splice-Distinct, Distinct-Splice, find_order-Splice, find_order-Splice_other, append_order-Splice,
  remove_order-Splice, write_remaining-Splice,
}
use nano_exchange.MapBook.{
  MeOrderBook, Incoming, levels, with_levels, new_order, insert, remove, set_remaining, set_index,
  new_book,
}

-- The orders that rest on either side.
abbrev pub book_orders : MeOrderBook → List MeOrder
book_orders b = resting b.bids ++ resting b.asks

-- No two resting orders have one address, and the index takes a client and its order id to a
-- resting order of that client and id, or to nothing.
pub record IsIndexed (b : MeOrderBook) : Type 0 where
  pub distinct : Distinct (book_orders b)
  pub points :
      (c k a : ℕ)
      → b.orders c k ≡ some a
      → (o : MeOrder) × (find_order a (book_orders b) ≡ some o)
        × (o.client_id ≡ c)
        × (o.client_order_id ≡ k)

-- No resting order has the address.
abbrev pub Fresh : ℕ → MeOrderBook → Type 0
Fresh a b = All (λ x. x.address ≢ a) (book_orders b)

-- The pointer leads to the order, at the level of its price on its side.
abbrev pub Found : MeOrder → MeOrderBook → Type 0
Found o b = find_order o.address (level_orders o.price (levels o.side b)) ≡ some o

pub new_book-IsIndexed : (t : ℕ) → IsIndexed (new_book t)
new_book-IsIndexed t = record { distinct = tt; points = λ c k a h. cc }

book-Splice :
    (s : Side) (o : MeOrder) (b : MeOrderBook) (ls ls' : List PriceLevel)
    → Splice o (resting ls) (resting ls')
    → Splice o (book_orders (with_levels s b ls)) (book_orders (with_levels s b ls'))
book-Splice buy o b ls ls' h = Splice-append o (resting ls) (resting ls') (resting b.asks) h
book-Splice sell o b ls ls' h = Splice-behind o (resting b.bids) (resting ls) (resting ls') h

book_same :
    (s : Side) (b : MeOrderBook) → book_orders (with_levels s b (levels s b)) ≡ book_orders b
book_same buy b = refl
book_same sell b = refl

index_kept :
    (s : Side) (b : MeOrderBook) (ls : List PriceLevel) → (with_levels s b ls).orders ≡ b.orders
index_kept buy b ls = refl
index_kept sell b ls = refl

pub insert-Splice :
    (a : ℕ) (i : Incoming) (q : ℕ) (b : MeOrderBook)
    → Splice (new_order a i q) (book_orders (insert a i q b)) (book_orders b)
unfolding insert
insert-Splice a i q b = subst (Splice _ _) (book_same i.side b) (
    book-Splice i.side (new_order a i q) b _ (levels i.side b)
      (append_order-Splice i.side (new_order a i q) (levels i.side b)))

module _ (o : MeOrder) (b : MeOrderBook) (h : Found o b) where
  pub remove-Splice : Splice o (book_orders b) (book_orders (remove o b))
  unfolding remove
  remove-Splice =
      let ls : List PriceLevel = remove_order o.price o.address (levels o.side b) in
      subst (λ x. Splice o x (book_orders (with_levels o.side b ls))) (book_same o.side b)
        (book-Splice o.side o b (levels o.side b) ls
          (remove_order-Splice o.price o.address o (levels o.side b) h))

  pub set_remaining-Splice :
      (q : ℕ)
      → Splice
          (record o { remaining_quantity = q })
          (book_orders (set_remaining o q b))
          (book_orders (remove o b))
  unfolding remove set_remaining
  set_remaining-Splice q =
      book-Splice o.side _ b _ _ (write_remaining-Splice o.price o.address o q (levels o.side b) h)

-- A write before the removal is forgotten.

take : Side → MeOrder → MeOrderBook → MeOrderBook
take s o b = record (with_levels s b (remove_order o.price o.address (levels s b))) {
  orders = set_index o.client_id o.client_order_id none b.orders;
}

take-write :
    (s : Side) (o : MeOrder) (q : ℕ) (b : MeOrderBook)
    → take s o (with_levels s b (write_remaining o.price o.address q (levels s b))) ≡ take s o b
unfolding take
take-write buy o q b =
    ap
      (λ ls. record b { bids = ls; orders = set_index o.client_id o.client_order_id none b.orders })
      (remove-write o.price o.address q b.bids)
take-write sell o q b =
    ap
      (λ ls. record b { asks = ls; orders = set_index o.client_id o.client_order_id none b.orders })
      (remove-write o.price o.address q b.asks)

pub remove-set_remaining :
    (o : MeOrder) (q : ℕ) (b : MeOrderBook) → remove o (set_remaining o q b) ≡ remove o b
unfolding remove set_remaining take
remove-set_remaining o q b = take-write o.side o q b

-- The keys of an order are equal where the test of the index says so.
pub keys_eq : (c k c' k' : ℕ) → ((c == c') && (k == k')) ≡ true → (c ≡ c') × (k ≡ k')
keys_eq c k c' k' h = (ground (arith, h), ground (arith, h))

module _ (o : MeOrder) (b : MeOrderBook) (v : IsIndexed b) (h : Found o b) where
  found_at : find_order o.address (book_orders b) ≡ some o
  found_at = find_order-Splice o (book_orders b) _ (remove-Splice o b h) v.distinct

  -- What the pointer of another client or id leads to stands at another address.
  elsewhere :
      (c k a : ℕ) (x : MeOrder)
      → ((o.client_id == c) && (o.client_order_id == k)) ≡ false
      → find_order a (book_orders b) ≡ some x
      → x.client_id ≡ c
      → x.client_order_id ≡ k
      → (o.address == a) ≡ false
  elsewhere c k a x n f kc kk = elim (Bool-cases (o.address == a)) [
    | inl e ↦
        let g : some o ≡ some x =
          sym found_at ∙ ap (λ y. find_order y (book_orders b)) ((==_iff o.address a).0 e) ∙ f in
        let g' : o ≡ x = cc in
        let kc' : o.client_id ≡ c = ap (λ y. y.client_id) g' ∙ kc in
        let kk' : o.client_order_id ≡ k = ap (λ y. y.client_order_id) g' ∙ kk in
        absurd (ground (arith, n, kc', kk'))
    | inr e ↦ e
  ]

  pub remove-IsIndexed : IsIndexed (remove o b)
  remove-IsIndexed = record {
    distinct = (Distinct-Splice address_of o _ _ (remove-Splice o b h) v.distinct).1;
    points = points';
  }
    where
      points' :
          (c k a : ℕ)
          → (remove o b).orders c k ≡ some a
          → (x : MeOrder) × (find_order a (book_orders (remove o b)) ≡ some x)
            × (x.client_id ≡ c)
            × (x.client_order_id ≡ k)
      points' c k a e = elim (Bool-cases ((o.client_id == c) && (o.client_order_id == k))) [
        | inl t ↦ let f : none ≡ some a = unfold remove in (rw t at e) in cc
        | inr t ↦
            let f : b.orders c k ≡ some a = unfold remove in (rw t at e) in
            let (x, found, kc, kk) = v.points c k a f in
            (
              x,
              sym (
                    find_order-Splice_other a o _ _ (remove-Splice o b h)
                      (elsewhere c k a x t found kc kk))
                  ∙ found,
              kc,
              kk,
            )
      ]

  pub set_remaining-IsIndexed : (q : ℕ) → IsIndexed (set_remaining o q b)
  set_remaining-IsIndexed q = record { distinct = distinct'; points = points' }
    where
      o' : MeOrder
      o' = record o { remaining_quantity = q }

      distinct' : Distinct (book_orders (set_remaining o q b))
      distinct' =
          let (a, d) = Distinct-Splice address_of o _ _ (remove-Splice o b h) v.distinct in
          Splice-Distinct address_of _ _ _ (set_remaining-Splice o b h q) a d

      points' :
          (c k a : ℕ)
          → (set_remaining o q b).orders c k ≡ some a
          → (x : MeOrder) × (find_order a (book_orders (set_remaining o q b)) ≡ some x)
            × (x.client_id ≡ c)
            × (x.client_order_id ≡ k)
      points' c k a e = elim (Bool-cases (o.address == a)) [
        | inl t ↦
            let (x, found, kc, kk) = v.points c k a (same_index ∙ e) in
            let at : o.address ≡ a = (==_iff o.address a).0 t in
            let g : some o ≡ some x =
              sym found_at ∙ ap (λ y. find_order y (book_orders b)) at ∙ found in
            let g' : o ≡ x = cc in
            (
              o',
              ap (λ y. find_order y (book_orders (set_remaining o q b))) (sym at)
                  ∙ find_order-Splice o' _ _ (set_remaining-Splice o b h q) distinct',
              ap (λ y. y.client_id) g' ∙ kc,
              ap (λ y. y.client_order_id) g' ∙ kk,
            )
        | inr t ↦
            let (x, found, kc, kk) = v.points c k a (same_index ∙ e) in
            (
              x,
              find_order-Splice_other a o' _ _ (set_remaining-Splice o b h q) t
                  ∙ sym (find_order-Splice_other a o _ _ (remove-Splice o b h) t)
                  ∙ found,
              kc,
              kk,
            )
      ]
        where
          same_index : b.orders c k ≡ (set_remaining o q b).orders c k
          same_index = unfold set_remaining in ap (λ f. f c k) (sym (index_kept o.side b _))
