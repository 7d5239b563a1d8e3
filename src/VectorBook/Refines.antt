-- ===== src/VectorBook/Refines.antt =====
-- A book over vectors represents a book over std::map, and goes on to do so over each write of the
-- book; its loads of the orders see the same.
use nano_exchange.Base.{
  ℕ, ◌<◌, ◌≤◌, ◌≡◌, ◌≢◌, refl, sym, ap, ◌∙◌, Option, none, some, List, [], arith, inl, inr, ◌==◌,
  if◌then◌else◌, Bool-cases,
}
use nano_exchange.Types.{Side, buy, sell, MeOrder, PriceLevel}
use nano_exchange.Levels.{find_order}
use nano_exchange.Levels.Remove.{level_orders}
use nano_exchange.MapBook.{Incoming, new_order, set_index, opposite}
use nano_exchange.MapBook.Sides.{levels-with_levels}
use nano_exchange.MapBook
use nano_exchange.VectorBook.{PriceLevels, max_price_levels, active_orders}
use nano_exchange.VectorBook
use nano_exchange.VectorBook.Sides.{
  SideRefines, no_levels-refines, insert_at-refines, remove_at-refines, take_out-refines,
  write_at-refines,
}

-- Each side represents the side, and what else the two books keep is the same.
pub record BookRefines (vb : VectorBook.MeOrderBook) (b : MapBook.MeOrderBook) : Type 0 where
  pub same_ticker : vb.ticker_id ≡ b.ticker_id
  pub bids_refine : SideRefines buy vb.bids b.bids
  pub asks_refine : SideRefines sell vb.asks b.asks
  pub same_index : vb.orders ≡ b.orders
  pub same_next_id : vb.next_market_order_id ≡ b.next_market_order_id

-- The books of the two constructors.
pub new_book-refines : (t : ℕ) → BookRefines (VectorBook.new_book t) (MapBook.new_book t)
new_book-refines t = record {
  same_ticker = refl;
  bids_refine = no_levels-refines buy;
  asks_refine = no_levels-refines sell;
  same_index = refl;
  same_next_id = refl;
}

pub side-refines :
    (s : Side) (vb : VectorBook.MeOrderBook) (b : MapBook.MeOrderBook)
    → BookRefines vb b
    → SideRefines s (VectorBook.levels s vb) (MapBook.levels s b)
side-refines buy vb b r = r.bids_refine
side-refines sell vb b r = r.asks_refine

with_levels-refines :
    (s : Side) (vb : VectorBook.MeOrderBook) (b : MapBook.MeOrderBook) (vl : PriceLevels)
    (ls : List PriceLevel)
    → BookRefines vb b
    → SideRefines s vl ls
    → BookRefines (VectorBook.with_levels s vb vl) (MapBook.with_levels s b ls)
with_levels-refines buy vb b vl ls r x = record {
  same_ticker = r.same_ticker;
  bids_refine = x;
  asks_refine = r.asks_refine;
  same_index = r.same_index;
  same_next_id = r.same_next_id;
}
with_levels-refines sell vb b vl ls r x = record {
  same_ticker = r.same_ticker;
  bids_refine = r.bids_refine;
  asks_refine = x;
  same_index = r.same_index;
  same_next_id = r.same_next_id;
}

with_levels_twice-refines :
    (s : Side) (vb : VectorBook.MeOrderBook) (b : MapBook.MeOrderBook) (vl vl' : PriceLevels)
    (ls ls' : List PriceLevel)
    → BookRefines vb b
    → SideRefines s vl' ls'
    → BookRefines
        (VectorBook.with_levels s (VectorBook.with_levels s vb vl) vl')
        (MapBook.with_levels s (MapBook.with_levels s b ls) ls')
with_levels_twice-refines buy vb b vl vl' ls ls' r x = with_levels-refines buy vb b vl' ls' r x
with_levels_twice-refines sell vb b vl vl' ls ls' r x = with_levels-refines sell vb b vl' ls' r x

same_levels :
    (s : Side) (vb : VectorBook.MeOrderBook) (vl : PriceLevels)
    → VectorBook.levels s (VectorBook.with_levels s vb vl) ≡ vl
same_levels buy vb vl = refl
same_levels sell vb vl = refl

index_kept :
    (s : Side) (vb : VectorBook.MeOrderBook) (vl : PriceLevels)
    → (VectorBook.with_levels s vb vl).orders ≡ vb.orders
index_kept buy vb vl = refl
index_kept sell vb vl = refl

map_index_kept :
    (s : Side) (b : MapBook.MeOrderBook) (ls : List PriceLevel)
    → (MapBook.with_levels s b ls).orders ≡ b.orders
map_index_kept buy b ls = refl
map_index_kept sell b ls = refl

set_index-refines :
    (vb : VectorBook.MeOrderBook) (b : MapBook.MeOrderBook) (vf f : ℕ → ℕ → Option ℕ)
    → BookRefines vb b
    → vf ≡ f
    → BookRefines (record vb { orders = vf }) (record b { orders = f })
set_index-refines vb b vf f r e = record {
  same_ticker = r.same_ticker;
  bids_refine = r.bids_refine;
  asks_refine = r.asks_refine;
  same_index = e;
  same_next_id = r.same_next_id;
}

pub insert-refines :
    (a : ℕ) (i : Incoming) (q : ℕ) (vb : VectorBook.MeOrderBook) (b : MapBook.MeOrderBook)
    → BookRefines vb b
    → 0 < q
    → i.price < max_price_levels
    → (vb' : VectorBook.MeOrderBook) × (VectorBook.insert a i q vb ≡ some vb')
      × BookRefines vb' (MapBook.insert a i q b)
unfolding VectorBook.insert MapBook.insert
insert-refines a i q vb b r h bound =
    let o : MeOrder = new_order a i q in
    let (vl, run, x) =
      insert_at-refines i.side o (VectorBook.levels i.side vb) (MapBook.levels i.side b)
        (side-refines i.side vb b r)
        (record { at_price = refl; on_side = refl; live = h; within = omega arith }) bound in
    (
      _,
      rw run refl,
      set_index-refines _ _ _ _ (with_levels-refines i.side vb b vl _ r x)
          (ap (set_index i.client_id i.client_order_id (some a)) r.same_index),
    )

module _ (o : MeOrder) (vb : VectorBook.MeOrderBook) (b : MapBook.MeOrderBook)
    (r : BookRefines vb b) where
  pub remove-refines :
      level_orders o.price (MapBook.levels o.side b) ≢ []
      → BookRefines (VectorBook.remove o vb) (MapBook.remove o b)
  unfolding VectorBook.remove MapBook.remove
  remove-refines h =
      set_index-refines _ _ _ _
        (with_levels-refines o.side vb b _ _ r
          (remove_at-refines o.side o.price o.address _ _ (side-refines o.side vb b r) h))
        (ap (set_index o.client_id o.client_order_id none) r.same_index)

  pub set_remaining-refines :
      (q : ℕ)
      → ((x : MeOrder)
          → find_order o.address (level_orders o.price (MapBook.levels o.side b)) ≡ some x
          → (0 < q) × (q ≤ x.initial_quantity))
      → BookRefines (VectorBook.set_remaining o q vb) (MapBook.set_remaining o q b)
  unfolding VectorBook.set_remaining MapBook.set_remaining
  set_remaining-refines q h =
      with_levels-refines o.side vb b _ _ r
        (write_at-refines o.side o.price o.address _ _ (side-refines o.side vb b r) q h)

  -- A write before the removal is forgotten.
  pub take_out_book-refines :
      (q : ℕ)
      → level_orders o.price (MapBook.levels o.side b) ≢ []
      → BookRefines
          (VectorBook.remove o (VectorBook.set_remaining o q vb))
          (MapBook.remove o (MapBook.set_remaining o q b))
  unfolding VectorBook.remove MapBook.remove VectorBook.set_remaining MapBook.set_remaining
  take_out_book-refines q h =
      set_index-refines _ _ _ _
        (with_levels_twice-refines o.side vb b _ _ _ _ r (
          rw (same_levels o.side vb _, levels-with_levels o.side o.side b _ refl)
            (take_out-refines o.side o.price o.address _ _ (side-refines o.side vb b r) q h)))
        (ap (set_index o.client_id o.client_order_id none)
          (index_kept o.side vb _ ∙ r.same_index ∙ sym (map_index_kept o.side b _)))

  -- An order that is in the book is left `q` of its shares, or taken out where none is left.
  pub lower-refines :
      (q : ℕ)
      → find_order o.address (level_orders o.price (MapBook.levels o.side b)) ≡ some o
      → o.remaining_quantity ≤ o.initial_quantity
      → q ≤ o.remaining_quantity
      → BookRefines
          (if q == 0
            then VectorBook.remove o (VectorBook.set_remaining o q vb)
            else VectorBook.set_remaining o q vb)
          (if q == 0
            then MapBook.remove o (MapBook.set_remaining o q b)
            else MapBook.set_remaining o q b)
  lower-refines q found within le = elim (Bool-cases (q == 0)) [
    | inl z ↦ rw z (
        take_out_book-refines q
          (λ e. let k : none ≡ some o = unfold find_order in (rw e at found) in cc))
    | inr z ↦ rw z (
        set_remaining-refines q (λ x f.
          let g : some o ≡ some x = sym found ∙ f in
          let i : o.initial_quantity ≡ x.initial_quantity = cc in (ground arith, omega arith)))
  ]
