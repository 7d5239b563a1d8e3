-- ===== src/VectorBook/Sides.antt =====
-- A side of the book over vectors represents a side of the book over std::map, and goes on to do so
-- over each write.
use nano_exchange.Base.{
  ℕ, ◌<◌, ◌≤◌, ◌≡◌, ◌≢◌, refl, sym, ap, ◌∙◌, subst, false, inl, inr, some, List, [], ◌∷◌, ◌++◌, All,
  length, ◌==◌, ==_refl, lt→ltb, Bool-cases, update_at, arith,
}
use nano_exchange.Types.{Side, MeOrder, PriceLevel}
use nano_exchange.Levels.{
  SideOk, OrderOk, append_order, unlink, remove_order, write_orders, write_remaining, find_order,
}
use nano_exchange.Levels.Insert.{append_order-prices, append_order-SideOk}
use nano_exchange.Levels.Remove.{
  level_orders, remove_order-prices, remove_order-SideOk, write_remaining-prices,
  write_remaining-SideOk, remove-write, unlink-write,
}
use nano_exchange.VectorBook.{
  PriceLevels, max_price_levels, no_levels, insert_at, remove_at, write_at, activate, deactivate,
  put_orders,
}
use nano_exchange.VectorBook.Links.{LevelLinks, IsLinked}
use nano_exchange.VectorBook.Links.Insert.{insert_price_level-IsLinked}
use nano_exchange.VectorBook.Links.Unlink.{remove_price_level-IsLinked}
use nano_exchange.VectorBook.Slots.{
  prices, prices-All, prices-Ordered, prices-Absent, prices-member, Ordered-length,
  level_orders-append, level_orders-append_other, prices-append_new, prices-append_old,
}
use nano_exchange.VectorBook.Removal.{
  level_orders-remove, level_orders-remove_other, prices-remove_last, prices-remove_one,
  level_orders-write, level_orders-write_other, prices-write,
}

abbrev pub Bounded : List PriceLevel → Type 0
Bounded = All (λ l. l.price < max_price_levels)

-- The active levels are those of the map, in the map's order, every level holds the orders that the
-- map has at its price, and no price is out of the array's bounds.
pub record SideRefines (s : Side) (vl : PriceLevels) (ls : List PriceLevel) : Type 0 where
  pub ok : SideOk s ls
  pub linked : IsLinked (prices ls) vl.links
  pub at_price : (p : ℕ) → vl.slots p ≡ level_orders p ls
  pub bounded : Bounded ls

pub no_levels-refines : (s : Side) → SideRefines s no_levels []
no_levels-refines s = record {
  ok = tt;
  linked = record { chain = refl; unlinked = λ x h. (refl, refl) };
  at_price = λ p. refl;
  bounded = tt;
}

-- The walk over the levels is no longer than the array.
pub prices-length :
    (s : Side) (ls : List PriceLevel)
    → SideOk s ls
    → Bounded ls
    → length (prices ls) ≤ max_price_levels
prices-length s ls v h =
    Ordered-length s max_price_levels (prices ls) (prices-Ordered s ls v) (prices-All _ ls h)

updated :
    (p : ℕ) (f g : ℕ → List MeOrder) {os : List MeOrder}
    → os ≡ g p
    → ((x : ℕ) → (x == p) ≡ false → f x ≡ g x)
    → (x : ℕ) → update_at p os f x ≡ g x
updated p f g here elsewhere x = elim (Bool-cases (x == p)) [
  | inl e ↦ let h : x ≡ p = ground (arith, e) in rw e (here ∙ ap g (sym h))
  | inr e ↦ rw e (elsewhere x e)
]

module _ (s : Side) (o : MeOrder) (vl : PriceLevels) (ls : List PriceLevel)
    (r : SideRefines s vl ls) where
  activate-IsLinked :
      (os : List MeOrder)
      → level_orders o.price ls ≡ os
      → (l : LevelLinks) × (activate s o.price os vl.links ≡ some l)
        × IsLinked (prices (append_order s o ls)) l
  activate-IsLinked [] e =
      let (l, run, linked) =
        insert_price_level-IsLinked s o.price vl.links max_price_levels (prices ls) r.linked
          (prices-Ordered s ls r.ok) (prices-Absent s o.price ls r.ok e)
          (prices-length s ls r.ok r.bounded) in
      (l, run, subst (λ ps. IsLinked ps l) (sym (prices-append_new s o ls r.ok e)) linked)
  activate-IsLinked (x ∷ os) e = (
    vl.links,
    refl,
    subst (λ ps. IsLinked ps vl.links)
        (sym (prices-append_old s o ls r.ok (λ f. let g : x ∷ os ≡ [] = sym e ∙ f in cc))) r.linked,
  )

  pub insert_at-refines :
      OrderOk s o.price o
      → o.price < max_price_levels
      → (vl' : PriceLevels) × (insert_at s o vl ≡ some vl')
        × SideRefines s vl' (append_order s o ls)
  unfolding insert_at
  insert_at-refines ok h =
      let (l, run, linked) = activate-IsLinked (vl.slots o.price) (sym (r.at_price o.price)) in
      (
        put_orders o.price (vl.slots o.price ++ o ∷ []) l vl,
        rw (lt→ltb o.price max_price_levels h, run) refl,
        record {
          ok = append_order-SideOk s o ls ok r.ok;
          linked = linked;
          at_price =
              updated o.price vl.slots (λ x. level_orders x (append_order s o ls))
                (ap (λ os. os ++ o ∷ []) (r.at_price o.price)
                  ∙ sym (level_orders-append s o ls r.ok))
                (λ x e. r.at_price x ∙ sym (level_orders-append_other s o x ls e));
          bounded = append_order-prices (λ p. p < max_price_levels) s o ls h r.bounded;
        },
      )

module _ (s : Side) (p a : ℕ) (ls : List PriceLevel) (ok : SideOk s ls) (bounded : Bounded ls)
    (some_order : level_orders p ls ≢ []) where
  deactivate-IsLinked :
      (l : LevelLinks) (os : List MeOrder)
      → IsLinked (prices ls) l
      → unlink a (level_orders p ls) ≡ os
      → IsLinked (prices (remove_order p a ls)) (deactivate p os l)
  deactivate-IsLinked l [] v e =
      subst (λ ps. IsLinked ps (deactivate p [] l)) (sym (prices-remove_last p a ls e))
        (remove_price_level-IsLinked s p l (prices ls) v (prices-Ordered s ls ok)
          (prices-member p ls some_order))
  deactivate-IsLinked l (x ∷ os) v e =
      subst (λ ps. IsLinked ps l)
        (sym (prices-remove_one p a ls (λ f. let g : x ∷ os ≡ [] = sym e ∙ f in cc))) v

  -- A removal depends on what it leaves of the level.
  remove_at_lem :
      (vl : PriceLevels)
      → IsLinked (prices ls) vl.links
      → unlink a (vl.slots p) ≡ unlink a (level_orders p ls)
      → ((x : ℕ) → (x == p) ≡ false → vl.slots x ≡ level_orders x ls)
      → SideRefines s (remove_at p a vl) (remove_order p a ls)
  unfolding remove_at
  remove_at_lem vl linked here elsewhere = record {
    ok = remove_order-SideOk s p a ls ok;
    linked = deactivate-IsLinked vl.links (unlink a (vl.slots p)) linked (sym here);
    at_price =
        updated p vl.slots (λ x. level_orders x (remove_order p a ls))
          (here ∙ sym (level_orders-remove s p a ls ok))
          (λ x e. elsewhere x e ∙ sym (level_orders-remove_other p a x ls e));
    bounded = remove_order-prices (λ y. y < max_price_levels) p a ls bounded;
  }

module _ (s : Side) (p a : ℕ) (vl : PriceLevels) (ls : List PriceLevel)
    (r : SideRefines s vl ls) where
  pub remove_at-refines :
      level_orders p ls ≢ [] → SideRefines s (remove_at p a vl) (remove_order p a ls)
  remove_at-refines h =
      remove_at_lem s p a ls r.ok r.bounded h vl r.linked (ap (unlink a) (r.at_price p))
        (λ x e. r.at_price x)

  -- A write before the removal is forgotten.
  pub take_out-refines :
      (q : ℕ)
      → level_orders p ls ≢ []
      → SideRefines s
          (remove_at p a (write_at p a q vl))
          (remove_order p a (write_remaining p a q ls))
  unfolding write_at
  take_out-refines q h =
      subst (SideRefines s (remove_at p a (write_at p a q vl))) (sym (remove-write p a q ls)) (
        remove_at_lem s p a ls r.ok r.bounded h (write_at p a q vl) r.linked
          (rw (==_refl p) (unlink-write a q (vl.slots p) ∙ ap (unlink a) (r.at_price p)))
          (λ x e. rw e (r.at_price x)))

  pub write_at-refines :
      (q : ℕ)
      → ((o : MeOrder)
          → find_order a (level_orders p ls) ≡ some o
          → (0 < q) × (q ≤ o.initial_quantity))
      → SideRefines s (write_at p a q vl) (write_remaining p a q ls)
  unfolding write_at
  write_at-refines q h = record {
    ok = write_remaining-SideOk s p a q ls h r.ok;
    linked = subst (λ ps. IsLinked ps vl.links) (sym (prices-write p a q ls)) r.linked;
    at_price =
        updated p vl.slots (λ x. level_orders x (write_remaining p a q ls))
          (ap (write_orders a q) (r.at_price p) ∙ sym (level_orders-write p a q ls))
          (λ x e. r.at_price x ∙ sym (level_orders-write_other p a q x ls e));
    bounded = write_remaining-prices (λ y. y < max_price_levels) p a q ls r.bounded;
  }
