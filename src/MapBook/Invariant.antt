-- ===== src/MapBook/Invariant.antt =====
-- Every public operation leaves a valid book valid.
use nano_exchange.Base.{
  true, false, ◌||◌, Option, All-Unit, ℕ, ◌-◌, ◌<◌, ◌≤◌, ◌≡◌, ◌⊎◌, refl, sym, ap, ◌∙◌, subst, inl,
  inr, none, some, ◌==◌, ltb, Bool-cases, arith,
}
use nano_exchange.Types.{Side, buy, sell, OrderType, OrderToken, MeOrder}
use nano_exchange.Levels.{After, OrderOk, SideOk, find_order, resting}
use nano_exchange.Levels.Remove.{level_orders}
use nano_exchange.Levels.Find.{find_order-append, find_level}
use nano_exchange.MapBook.{
  MeOrderBook, Incoming, Matching, opposite, levels, insert, remove, set_remaining, match_order,
}
use nano_exchange.MapBook.Operations.{
  Outcome, deref, bump, add_incoming, add_outcome, replace_outcome, cancel_order, replace_order,
  replace_found, reject, not_found, add_order, incoming, rest_or_kill, rest_or_kill_replaced,
  cancel_found, canceled_qty,
}
use nano_exchange.MapBook.Loop.{Stopped, started, match_order_total}
use nano_exchange.MapBook.Valid.{
  IsValid, ValidFrom, valid_from, Fills-IsValid, insert-IsValid, remove-IsValid,
  set_remaining-IsValid, take_out-IsValid,
}

pub bump-IsValid : (b : MeOrderBook) → IsValid b → IsValid (bump b)
bump-IsValid b v = record { bids_ok = v.bids_ok; asks_ok = v.asks_ok; uncrossed = v.uncrossed }

pub levels-bump : (s : Side) (b : MeOrderBook) → levels s (bump b) ≡ levels s b
levels-bump buy b = refl
levels-bump sell b = refl

-- `match` on a valid book returns a valid book, and stops where it should.
pub match_order-IsValid :
    (i : Incoming) (nmid : ℕ) (b : MeOrderBook)
    → IsValid b
    → (m : Matching) × (match_order i nmid b ≡ some m) × IsValid m.book × Stopped i m
match_order-IsValid i nmid b v =
    let w : ValidFrom i.side b = valid_from i.side b v in
    let (m, run, fills, stopped) = match_order_total i nmid b w.opposite_ok in
    (m, run, Fills-IsValid i m (started i nmid b) fills v, stopped)

-- Where shares are left, the opposite side is out of reach.
out_of_reach :
    (i : Incoming) (m : Matching)
    → Stopped i m
    → 0 < m.remaining
    → After (opposite i.side) i.price (levels (opposite i.side) m.book)
out_of_reach i m (inl z) h = absurd (omega arith)
out_of_reach i m (inr a) h = a

-- What follows the match leaves the book, or lets the rest of the order rest.
abbrev pub Rests : ℕ → Incoming → Matching → MeOrderBook → Type 0
Rests a i m b = (b ≡ m.book) ⊎ ((0 < m.remaining) × (b ≡ insert a i m.remaining m.book))

pub rest_or_kill-Rests :
    (a : ℕ) (i : Incoming) (m : Matching) → Rests a i m (rest_or_kill a i m).book
unfolding rest_or_kill
rest_or_kill-Rests a i m = ground arith

pub rest_or_kill_replaced-Rests :
    (a : ℕ) (i : Incoming) (m : Matching) → Rests a i m (rest_or_kill_replaced a i m).book
unfolding rest_or_kill_replaced
rest_or_kill_replaced-Rests a i m = ground arith

pub Rests-IsValid :
    (a : ℕ) (i : Incoming) (m : Matching) (b : MeOrderBook)
    → IsValid m.book
    → Stopped i m
    → Rests a i m b
    → IsValid b
Rests-IsValid a i m b v s (inl e) = subst IsValid (sym e) v
Rests-IsValid a i m b v s (inr (h, e)) =
    subst IsValid (sym e) (insert-IsValid a i m.remaining m.book h (out_of_reach i m s h) v)

add_incoming-IsValid :
    (a : ℕ) (i : Incoming) (nmid : ℕ) (b : MeOrderBook)
    → IsValid b
    → (r : Outcome) × (add_incoming a i nmid b ≡ some r) × IsValid r.book
unfolding add_incoming
add_incoming-IsValid a i nmid b v =
    let (m, run, valid, stopped) = match_order-IsValid i nmid (bump b) (bump-IsValid b v) in
    (
      add_outcome a i m,
      rw run refl,
      Rests-IsValid a i m (rest_or_kill a i m).book valid stopped (rest_or_kill-Rests a i m),
    )

-- addOrder returns on a valid book, and leaves it valid: it stays in strict price order, with no
-- empty level and no order without shares, and no bid reaches an ask.
pub add_order-IsValid :
    (a t c k : ℕ) (type : OrderType) (p q : ℕ) (s : Side) (tok : OrderToken) (nmid : ℕ)
    (b : MeOrderBook)
    → IsValid b
    → (r : Outcome) × (add_order a t c k type p q s tok nmid b ≡ some r) × IsValid r.book
unfolding add_order
add_order-IsValid a t c k type p q s tok nmid b v =
    add_incoming-IsValid a (incoming t c k type p q s tok b) nmid b v

-- A pointer of the book points to an order at the level of its price on its side.
pub deref_level :
    (a : ℕ) (b : MeOrderBook) (o : MeOrder)
    → ((s : Side) → SideOk s (levels s b))
    → deref a b ≡ some o
    → (o.address ≡ a)
      × OrderOk o.side o.price o
      × (find_order a (level_orders o.price (levels o.side b)) ≡ some o)
unfolding deref
deref_level a b o v h = go (find_order-append a (resting b.bids) (resting b.asks) o h)
  where
    at :
        (s : Side)
        → find_order a (resting (levels s b)) ≡ some o
        → (o.address ≡ a)
          × OrderOk o.side o.price o
          × (find_order a (level_orders o.price (levels o.side b)) ≡ some o)
    at s k =
        let (x, ok, _, y) =
          find_level (λ _. Unit {0}) s a (levels s b) o (v s) (All-Unit (levels s b)) k in
        (
          x,
          subst (λ t. OrderOk t o.price o) (sym ok.on_side) ok,
          subst (λ t. find_order a (level_orders o.price (levels t b)) ≡ some o) (sym ok.on_side) y,
        )

    go :
        (find_order a (resting b.bids) ≡ some o)
          ⊎ ((find_order a (resting b.bids) ≡ none) × (find_order a (resting b.asks) ≡ some o))
        → (o.address ≡ a)
          × OrderOk o.side o.price o
          × (find_order a (level_orders o.price (levels o.side b)) ≡ some o)
    go (inl k) = at buy k
    go (inr k) = at sell k.1

module _ (t c k qty : ℕ) (o : MeOrder) (nmid : ℕ) (b : MeOrderBook) where
  -- A cancel touches nothing, takes the order out, or leaves it fewer shares.
  pub cancel_found-cases :
      ((cancel_found t c k qty o nmid b).book ≡ b)
      ⊎ ((q : ℕ) × ((cancel_found t c k qty o nmid b).book ≡ remove o (set_remaining o q b)))
      ⊎ ((q : ℕ) × ((cancel_found t c k qty o nmid b).book ≡ set_remaining o q b)
          × (0 < q)
          × (q ≤ o.remaining_quantity))
  unfolding cancel_found
  cancel_found-cases =
      let left : ℕ = o.remaining_quantity - canceled_qty qty o in
      elim (Bool-cases (ltb o.remaining_quantity (canceled_qty qty o))) [
        | inl e ↦ rw e (inl refl)
        | inr e ↦ rw e (elim (Bool-cases (left == 0)) [
          | inl z ↦ rw z (inr (inl (left, refl)))
          | inr z ↦ rw z (inr (inr (left, refl, ground arith, omega arith)))
        ])
      ]

  pub cancel_found-IsValid :
      (a : ℕ) → IsValid b → deref a b ≡ some o → IsValid (cancel_found t c k qty o nmid b).book
  cancel_found-IsValid a v h = go cancel_found-cases
    where
      sound :
          (q : ℕ)
          → (0 < q)
          → (q ≤ o.remaining_quantity)
          → (x : MeOrder) → find_order o.address (level_orders o.price (levels o.side b)) ≡ some x
          → (0 < q) × (q ≤ x.initial_quantity)
      sound q pos le x f =
          let (at, ok, found) = deref_level a b o (λ s. (valid_from s b v).own_ok) h in
          let e : some x ≡ some o =
            sym f ∙ ap (λ y. find_order y (level_orders o.price (levels o.side b))) at ∙ found in
          let e' : o.initial_quantity ≡ x.initial_quantity = cc in
          let w : o.remaining_quantity ≤ o.initial_quantity = ok.within in (pos, omega arith)

      go :
          ((cancel_found t c k qty o nmid b).book ≡ b)
            ⊎ ((q : ℕ) × ((cancel_found t c k qty o nmid b).book ≡ remove o (set_remaining o q b)))
            ⊎ ((q : ℕ) × ((cancel_found t c k qty o nmid b).book ≡ set_remaining o q b)
                × (0 < q)
                × (q ≤ o.remaining_quantity))
          → IsValid (cancel_found t c k qty o nmid b).book
      go (inl e) = subst IsValid (sym e) v
      go (inr (inl (q, e))) = subst IsValid (sym e) (take_out-IsValid o q b v)
      go (inr (inr (q, e, pos, le))) =
          subst IsValid (sym e) (set_remaining-IsValid o q b (sound q pos le) v)

-- The pointer that the index holds for the client's order, if any, is not dangling.
abbrev pub Points : MeOrderBook → ℕ → ℕ → Type 0
Points b c k = (a : ℕ) → b.orders c k ≡ some a → (o : MeOrder) × (deref a b ≡ some o)

-- cancelOrder returns on a valid book whose pointer for the client's order, if any, is not
-- dangling, and leaves it valid.
pub cancel_order-IsValid :
    (t c k qty : ℕ) (tok : OrderToken) (nmid : ℕ) (b : MeOrderBook)
    → IsValid b
    → Points b c k
    → (r : Outcome) × (cancel_order t c k qty tok nmid b ≡ some r) × IsValid r.book
unfolding cancel_order
cancel_order-IsValid t c k qty tok nmid b v points = go (b.orders c k) refl
  where
    go :
        (x : Option ℕ)
        → b.orders c k ≡ x
        → (r : Outcome) × (cancel_order t c k qty tok nmid b ≡ some r) × IsValid r.book
    go none e = (reject (not_found t c k tok) nmid b, rw (e, cancel_order) refl, v)
    go (some a) e =
        let (o, found) = points a e in
        (
          cancel_found t c k qty o nmid b,
          rw (e, cancel_order) (rw found refl),
          cancel_found-IsValid t c k qty o nmid b a v found,
        )

replace_found-IsValid :
    (a : ℕ) (i : Incoming) (old : MeOrder) (nmid : ℕ) (b : MeOrderBook)
    → IsValid b
    → (r : Outcome) × (replace_found a i old nmid b ≡ some r) × IsValid r.book
unfolding replace_found
replace_found-IsValid a i old nmid b v =
    let (m, run, valid, stopped) =
      match_order-IsValid i nmid (remove old (bump b))
        (remove-IsValid old (bump b) (bump-IsValid b v)) in
    (
      replace_outcome a i old m,
      rw run refl,
      Rests-IsValid a i m (rest_or_kill_replaced a i m).book valid stopped
          (rest_or_kill_replaced-Rests a i m),
    )

-- replaceOrder returns on a valid book whose pointer for the client's order, if any, is not
-- dangling, and leaves it valid.
pub replace_order-IsValid :
    (a t c k k' : ℕ) (type : OrderType) (p q : ℕ) (tok : OrderToken) (nmid : ℕ) (b : MeOrderBook)
    → IsValid b
    → Points b c k
    → (r : Outcome) × (replace_order a t c k k' type p q tok nmid b ≡ some r) × IsValid r.book
unfolding replace_order
replace_order-IsValid a t c k k' type p q tok nmid b v points =
    go (b.orders c k) refl (Bool-cases ((k' == 0) || (q == 0)))
  where
    go :
        (x : Option ℕ)
        → b.orders c k ≡ x
        → (((k' == 0) || (q == 0)) ≡ true) ⊎ (((k' == 0) || (q == 0)) ≡ false)
        → (r : Outcome) × (replace_order a t c k k' type p q tok nmid b ≡ some r) × IsValid r.book
    go none e f = (reject (not_found t c k tok) nmid b, rw (e, replace_order) refl, v)
    go (some x) e (inl f) =
        (reject (not_found t c k tok) nmid b, rw (e, replace_order) (rw f refl), v)
    go (some x) e (inr f) =
        let (o, found) = points x e in
        let (r, run, valid) =
          replace_found-IsValid a (incoming t c k' type p q o.side tok b) o nmid b v in
        (r, rw (e, replace_order) (rw f (rw found run)), valid)
