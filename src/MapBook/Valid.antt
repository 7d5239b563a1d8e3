-- ===== src/MapBook/Valid.antt =====
-- A valid book, and the writes that keep it valid.
use nano_exchange.Base.{
  ap, ◌∙◌, arith, ℕ, ◌<◌, ◌≤◌, ◌≡◌, refl, sym, subst, some, List, [], ◌∷◌, All, All-map,
}
use nano_exchange.Types.{Side, buy, sell, MeOrder, PriceLevel}
use nano_exchange.Levels.{
  After, OrderOk, SideOk, Before, append_order, remove_order, write_remaining, find_order,
}
use nano_exchange.Levels.Insert.{append_order-prices, append_order-SideOk}
use nano_exchange.Levels.Remove.{
  remove-write, remove_order-prices, remove_order-SideOk, write_remaining-prices,
  write_remaining-SideOk, level_orders,
}
use nano_exchange.MapBook.{
  MeOrderBook, Incoming, Matching, opposite, levels, new_order, insert, remove, set_remaining,
  new_book,
}
use nano_exchange.MapBook.Sides.{
  levels-insert, levels-insert_other, levels-remove, levels-remove_other, levels-set_remaining,
  levels-set_remaining_other,
}
use nano_exchange.MapBook.Fills.{Fills, Fills-SideOk, Fills-own, Fills-prices}

-- Every price of the one side comes strictly before every price of the other: no two orders of the
-- sides could trade.
abbrev pub Uncrossed : Side → List PriceLevel → List PriceLevel → Type 0
Uncrossed s own opp = All (λ l. After (opposite s) l.price opp) own

-- Both sides stand in strict price order with no empty level and sound orders, and no bid reaches
-- an ask.
pub record IsValid (b : MeOrderBook) : Type 0 where
  pub bids_ok : SideOk buy b.bids
  pub asks_ok : SideOk sell b.asks
  pub uncrossed : Uncrossed buy b.bids b.asks

pub new_book-IsValid : (t : ℕ) → IsValid (new_book t)
new_book-IsValid t = record { bids_ok = tt; asks_ok = tt; uncrossed = tt }

-- The two sides change places.

Before-flip : (s : Side) (x y : ℕ) → Before (opposite s) x y → Before s y x
Before-flip buy x y h = h
Before-flip sell x y h = h

Uncrossed-cons :
    (s : Side) (p : PriceLevel) (own opp : List PriceLevel)
    → Uncrossed s own (p ∷ opp)
    → After s p.price own × Uncrossed s own opp
Uncrossed-cons s p [] opp h = (tt, tt)
Uncrossed-cons s p (l ∷ ls) opp h =
    let (x, y) = Uncrossed-cons s p ls opp h.1 in
    ((Before-flip s l.price p.price h.0.0, x), (h.0.1, y))

opposite-opposite : (s : Side) → opposite (opposite s) ≡ s
opposite-opposite buy = refl
opposite-opposite sell = refl

Uncrossed-flip :
    (s : Side) (own opp : List PriceLevel) → Uncrossed s own opp → Uncrossed (opposite s) opp own
Uncrossed-flip s own [] h = tt
Uncrossed-flip s own (p ∷ opp) h =
    let (x, y) = Uncrossed-cons s p own opp h in
    (subst (λ t. After t p.price own) (sym (opposite-opposite s)) x, Uncrossed-flip s own opp y)

module _ (s : Side) (b : MeOrderBook) where
  -- A book is valid as seen from a side.
  pub record ValidFrom : Type 0 where
    pub own_ok : SideOk s (levels s b)
    pub opposite_ok : SideOk (opposite s) (levels (opposite s) b)
    pub apart : Uncrossed s (levels s b) (levels (opposite s) b)

pub valid_from : (s : Side) (b : MeOrderBook) → IsValid b → ValidFrom s b
valid_from buy b v = record { own_ok = v.bids_ok; opposite_ok = v.asks_ok; apart = v.uncrossed }
valid_from sell b v = record {
  own_ok = v.asks_ok;
  opposite_ok = v.bids_ok;
  apart = Uncrossed-flip buy b.bids b.asks v.uncrossed;
}

pub IsValid-of : (s : Side) (b : MeOrderBook) → ValidFrom s b → IsValid b
IsValid-of buy b v = record { bids_ok = v.own_ok; asks_ok = v.opposite_ok; uncrossed = v.apart }
IsValid-of sell b v = record {
  bids_ok = v.opposite_ok;
  asks_ok = v.own_ok;
  uncrossed = Uncrossed-flip sell b.asks b.bids v.apart;
}

-- A change of the own side alone.
own_change :
    (s : Side) (b b' : MeOrderBook) (ls : List PriceLevel)
    → levels s b' ≡ ls
    → levels (opposite s) b' ≡ levels (opposite s) b
    → SideOk s ls
    → SideOk (opposite s) (levels (opposite s) b)
    → Uncrossed s ls (levels (opposite s) b)
    → IsValid b'
own_change s b b' ls e f ok opp h = IsValid-of s b' (record {
  own_ok = subst (SideOk s) (sym e) ok;
  opposite_ok = subst (SideOk (opposite s)) (sym f) opp;
  apart =
      subst (λ x. Uncrossed s x (levels (opposite s) b')) (sym e)
        (subst (Uncrossed s ls) (sym f) h);
})

pub Fills-IsValid :
    (i : Incoming) (m' m : Matching) → Fills i m' m → IsValid m.book → IsValid m'.book
Fills-IsValid i m' m f v =
    let w : ValidFrom i.side m.book = valid_from i.side m.book v in
    IsValid-of i.side m'.book (record {
      own_ok = subst (SideOk i.side) (sym (Fills-own i m' m f)) w.own_ok;
      opposite_ok = Fills-SideOk i m' m f w.opposite_ok;
      apart =
          subst (λ x. Uncrossed i.side x (levels (opposite i.side) m'.book))
            (sym (Fills-own i m' m f))
            (All-map _ _ (levels i.side m.book)
              (λ l h. Fills-prices (Before (opposite i.side) l.price) i m' m f h) w.apart);
    })

-- An order may rest where the opposite side is out of its reach.
pub insert-IsValid :
    (a : ℕ) (i : Incoming) (q : ℕ) (b : MeOrderBook)
    → 0 < q
    → After (opposite i.side) i.price (levels (opposite i.side) b)
    → IsValid b
    → IsValid (insert a i q b)
insert-IsValid a i q b h k v =
    let w : ValidFrom i.side b = valid_from i.side b v in
    let o : MeOrder = new_order a i q in
    let ok : OrderOk i.side i.price o = record {
      at_price = refl;
      on_side = refl;
      live = h;
      within = omega arith;
    } in
    own_change i.side b (insert a i q b) (append_order i.side o (levels i.side b))
      (levels-insert i.side a i q b refl)
      (levels-insert_other (opposite i.side) a i q b (sym (opposite-opposite i.side)))
      (append_order-SideOk i.side o (levels i.side b) ok w.own_ok) w.opposite_ok
      (append_order-prices (λ p. After (opposite i.side) p (levels (opposite i.side) b)) i.side o
        (levels i.side b) k w.apart)

pub remove-IsValid : (o : MeOrder) (b : MeOrderBook) → IsValid b → IsValid (remove o b)
remove-IsValid o b v =
    let w : ValidFrom o.side b = valid_from o.side b v in
    own_change o.side b (remove o b) (remove_order o.price o.address (levels o.side b))
      (levels-remove o.side o b refl)
      (levels-remove_other (opposite o.side) o b (sym (opposite-opposite o.side)))
      (remove_order-SideOk o.side o.price o.address (levels o.side b) w.own_ok) w.opposite_ok
      (remove_order-prices (λ p. After (opposite o.side) p (levels (opposite o.side) b)) o.price
        o.address (levels o.side b) w.apart)

-- A write leaves the order sound where it keeps a share of it.
pub set_remaining-IsValid :
    (o : MeOrder) (q : ℕ) (b : MeOrderBook)
    → ((x : MeOrder)
        → find_order o.address (level_orders o.price (levels o.side b)) ≡ some x
        → (0 < q) × (q ≤ x.initial_quantity))
    → IsValid b
    → IsValid (set_remaining o q b)
set_remaining-IsValid o q b h v =
    let w : ValidFrom o.side b = valid_from o.side b v in
    own_change o.side b (set_remaining o q b)
      (write_remaining o.price o.address q (levels o.side b))
      (levels-set_remaining o.side o b refl q)
      (levels-set_remaining_other (opposite o.side) o b (sym (opposite-opposite o.side)) q)
      (write_remaining-SideOk o.side o.price o.address q (levels o.side b) h w.own_ok) w.opposite_ok
      (write_remaining-prices (λ p. After (opposite o.side) p (levels (opposite o.side) b)) o.price
        o.address q (levels o.side b) w.apart)

-- An order that is taken out leaves no trace of a write before it.
pub take_out-IsValid :
    (o : MeOrder) (q : ℕ) (b : MeOrderBook) → IsValid b → IsValid (remove o (set_remaining o q b))
take_out-IsValid o q b v =
    let w : ValidFrom o.side b = valid_from o.side b v in
    let other : o.side ≡ opposite (opposite o.side) = sym (opposite-opposite o.side) in
    own_change o.side b (remove o (set_remaining o q b))
      (remove_order o.price o.address (levels o.side b))
      (levels-remove o.side o (set_remaining o q b) refl
        ∙ ap (remove_order o.price o.address) (levels-set_remaining o.side o b refl q)
        ∙ remove-write o.price o.address q (levels o.side b))
      (levels-remove_other (opposite o.side) o (set_remaining o q b) other
        ∙ levels-set_remaining_other (opposite o.side) o b other q)
      (remove_order-SideOk o.side o.price o.address (levels o.side b) w.own_ok) w.opposite_ok
      (remove_order-prices (λ p. After (opposite o.side) p (levels (opposite o.side) b)) o.price
        o.address (levels o.side b) w.apart)
