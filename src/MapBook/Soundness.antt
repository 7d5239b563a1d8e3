-- ===== src/MapBook/Soundness.antt =====
-- The public operations never follow a dangling pointer, and keep the index from dangling.
use nano_exchange.Base.{
  ℕ, ◌≡◌, ◌≢◌, refl, sym, ap, ◌∙◌, subst, true, false, ◌||◌, ◌⊎◌, inl, inr, Option, none, some,
  ◌==◌, Bool-cases, one_result,
}
use nano_exchange.Types.{Side, OrderType, OrderToken, MeOrder}
use nano_exchange.Levels.{find_order}
use nano_exchange.Levels.Remove.{level_orders}
use nano_exchange.Levels.Splice.{All-Splice}
use nano_exchange.MapBook.{match_order, MeOrderBook, Incoming, Matching, levels, remove, new_book}
use nano_exchange.MapBook.Operations.{
  Outcome, deref, bump, add_incoming, add_outcome, replace_outcome, cancel_order, replace_order,
  replace_found, add_order, incoming, rest_or_kill, rest_or_kill_replaced, cancel_found, reject,
  not_found,
}
use nano_exchange.MapBook.Fills.{Fills}
use nano_exchange.MapBook.Loop.{Stopped, started, match_order_total}
use nano_exchange.MapBook.Valid.{
  IsValid, valid_from, Fills-IsValid, remove-IsValid, new_book-IsValid,
}
use nano_exchange.MapBook.Invariant.{
  bump-IsValid, levels-bump, Rests, Rests-IsValid, rest_or_kill-Rests, rest_or_kill_replaced-Rests,
  deref_level, cancel_found-cases, cancel_found-IsValid,
}
use nano_exchange.MapBook.Index.{
  IsIndexed, Fresh, Found, remove-Splice, remove-IsIndexed, set_remaining-IsIndexed,
  remove-set_remaining, new_book-IsIndexed,
}
use nano_exchange.MapBook.Index.Kept.{insert-IsIndexed, Fills-IsIndexed, Fills-Fresh}

-- A valid book whose index does not dangle.
pub record IsSound (b : MeOrderBook) : Type 0 where
  pub valid : IsValid b
  pub indexed : IsIndexed b

pub new_book-IsSound : (t : ℕ) → IsSound (new_book t)
new_book-IsSound t = record { valid = new_book-IsValid t; indexed = new_book-IsIndexed t }

bump-IsSound : (b : MeOrderBook) → IsSound b → IsSound (bump b)
bump-IsSound b v = record {
  valid = bump-IsValid b v.valid;
  indexed = record { distinct = v.indexed.distinct; points = v.indexed.points };
}

-- What follows a match on a sound book leaves a sound one.
Rests-IsSound :
    (a : ℕ) (i : Incoming) (nmid : ℕ) (b : MeOrderBook) (m : Matching) (b' : MeOrderBook)
    → IsSound b
    → Fresh a m.book
    → Fills i m (started i nmid b)
    → Stopped i m
    → Rests a i m b'
    → IsSound b'
Rests-IsSound a i nmid b m b' v fresh f s h = record {
  valid = Rests-IsValid a i m b' (Fills-IsValid i m (started i nmid b) f v.valid) s h;
  indexed = indexed h;
}
  where
    kept : IsIndexed m.book
    kept = Fills-IsIndexed i m (started i nmid b) f v.indexed

    indexed : Rests a i m b' → IsIndexed b'
    indexed (inl e) = subst IsIndexed (sym e) kept
    indexed (inr (_, e)) =
        subst IsIndexed (sym e) (insert-IsIndexed a i m.remaining m.book fresh kept)

-- After the match no order has the address: of the orders of the book, those that the match has
-- removed may have had it.
abbrev FreshAfter : ℕ → Incoming → ℕ → MeOrderBook → Type 0
FreshAfter a i nmid b = (m : Matching) → match_order i nmid b ≡ some m → Fresh a m.book

-- The address that the pool gives to addOrder when the order is inserted is of no resting order.
abbrev pub FreshAdded :
    ℕ → ℕ → ℕ → ℕ → OrderType → ℕ → ℕ → Side → OrderToken → ℕ → MeOrderBook → Type 0
FreshAdded a t c k type p q s tok nmid b =
    FreshAfter a (incoming t c k type p q s tok b) nmid (bump b)

-- The address that the pool gives to replaceOrder when the replacement is inserted is of no resting
-- order: it may be that of the order replaced, which has been freed.
abbrev pub FreshReplaced :
    ℕ → ℕ → ℕ → ℕ → ℕ → OrderType → ℕ → ℕ → OrderToken → ℕ → MeOrderBook → Type 0
FreshReplaced a t c k k' type p q tok nmid b =
    (x : ℕ) (old : MeOrder)
    → b.orders c k ≡ some x
    → deref x b ≡ some old
    → FreshAfter a (incoming t c k' type p q old.side tok b) nmid (remove old (bump b))

Fresh-FreshAfter :
    (a : ℕ) (i : Incoming) (nmid : ℕ) (b : MeOrderBook)
    → IsValid b
    → Fresh a b
    → FreshAfter a i nmid b
Fresh-FreshAfter a i nmid b v fresh m h =
    let (m', run, fills, _) = match_order_total i nmid b (valid_from i.side b v).opposite_ok in
    subst (λ x. Fresh a x.book) (one_result _ m' m run h)
      (Fills-Fresh a i m' (started i nmid b) fills fresh)

add_incoming-IsSound :
    (a : ℕ) (i : Incoming) (nmid : ℕ) (b : MeOrderBook)
    → IsSound b
    → FreshAfter a i nmid (bump b)
    → (r : Outcome) × (add_incoming a i nmid b ≡ some r) × IsSound r.book
unfolding add_incoming
add_incoming-IsSound a i nmid b v fresh =
    let w : IsSound (bump b) = bump-IsSound b v in
    let (m, run, fills, stopped) =
      match_order_total i nmid (bump b) (valid_from i.side (bump b) w.valid).opposite_ok in
    (
      add_outcome a i m,
      rw run refl,
      Rests-IsSound a i nmid (bump b) m (rest_or_kill a i m).book w (fresh m run) fills stopped
          (rest_or_kill-Rests a i m),
    )

-- addOrder returns on a sound book, where the pool gives an address that no order has that rests
-- after the match, and leaves it sound: valid, with an index that takes a client and its order id
-- to a resting order of that client and id, or to nothing.
pub add_order-IsSound :
    (a t c k : ℕ) (type : OrderType) (p q : ℕ) (s : Side) (tok : OrderToken) (nmid : ℕ)
    (b : MeOrderBook)
    → IsSound b
    → FreshAdded a t c k type p q s tok nmid b
    → (r : Outcome) × (add_order a t c k type p q s tok nmid b ≡ some r) × IsSound r.book
unfolding add_order
add_order-IsSound a t c k type p q s tok nmid b v fresh =
    add_incoming-IsSound a (incoming t c k type p q s tok b) nmid b v fresh

-- What a pointer of the index points to.
pub follows :
    (c k a : ℕ) (b : MeOrderBook)
    → IsSound b
    → b.orders c k ≡ some a
    → (o : MeOrder) × (deref a b ≡ some o) × Found o b
unfolding deref
follows c k a b v e =
    let (o, found, _, _) = v.indexed.points c k a e in
    let (at, _, there) = deref_level a b o (λ s. (valid_from s b v.valid).own_ok) found in
    (o, found, ap (λ x. find_order x (level_orders o.price (levels o.side b))) at ∙ there)

cancel_found-IsSound :
    (t c k qty a : ℕ) (o : MeOrder) (nmid : ℕ) (b : MeOrderBook)
    → IsSound b
    → deref a b ≡ some o
    → Found o b
    → IsSound (cancel_found t c k qty o nmid b).book
cancel_found-IsSound t c k qty a o nmid b v d h = record {
  valid = cancel_found-IsValid t c k qty o nmid b a v.valid d;
  indexed = elim (cancel_found-cases t c k qty o nmid b) [
    | inl e ↦ subst IsIndexed (sym e) v.indexed
    | inr (inl (q, e)) ↦
        subst IsIndexed (sym (e ∙ remove-set_remaining o q b)) (remove-IsIndexed o b v.indexed h)
    | inr (inr (q, e, _, _)) ↦ subst IsIndexed (sym e) (set_remaining-IsIndexed o b v.indexed h q)
  ];
}

-- cancelOrder returns on a sound book, and leaves it sound.
pub cancel_order-IsSound :
    (t c k qty : ℕ) (tok : OrderToken) (nmid : ℕ) (b : MeOrderBook)
    → IsSound b
    → (r : Outcome) × (cancel_order t c k qty tok nmid b ≡ some r) × IsSound r.book
unfolding cancel_order
cancel_order-IsSound t c k qty tok nmid b v = go (b.orders c k) refl
  where
    go :
        (x : Option ℕ)
        → b.orders c k ≡ x
        → (r : Outcome) × (cancel_order t c k qty tok nmid b ≡ some r) × IsSound r.book
    go none e = (reject (not_found t c k tok) nmid b, rw (e, cancel_order) refl, v)
    go (some a) e =
        let (o, d, h) = follows c k a b v e in
        (
          cancel_found t c k qty o nmid b,
          rw (e, cancel_order) (rw d refl),
          cancel_found-IsSound t c k qty a o nmid b v d h,
        )

replace_found-IsSound :
    (a : ℕ) (i : Incoming) (old : MeOrder) (nmid : ℕ) (b : MeOrderBook)
    → IsSound b
    → FreshAfter a i nmid (remove old (bump b))
    → Found old b
    → (r : Outcome) × (replace_found a i old nmid b ≡ some r) × IsSound r.book
unfolding replace_found
replace_found-IsSound a i old nmid b v fresh h =
    let w : IsSound (bump b) = bump-IsSound b v in
    let h' : Found old (bump b) =
      ap (λ ls. find_order old.address (level_orders old.price ls)) (levels-bump old.side b) ∙ h in
    let b' : MeOrderBook = remove old (bump b) in
    let w' : IsSound b' = record {
      valid = remove-IsValid old (bump b) w.valid;
      indexed = remove-IsIndexed old (bump b) w.indexed h';
    } in
    let (m, run, fills, stopped) =
      match_order_total i nmid b' (valid_from i.side b' w'.valid).opposite_ok in
    (
      replace_outcome a i old m,
      rw run refl,
      Rests-IsSound a i nmid b' m (rest_or_kill_replaced a i m).book w' (fresh m run) fills stopped
          (rest_or_kill_replaced-Rests a i m),
    )

-- replaceOrder returns on a sound book, where the pool gives an address that no order has that
-- rests after the match, be it that of the order replaced, and leaves it sound.
pub replace_order-IsSound :
    (a t c k k' : ℕ) (type : OrderType) (p q : ℕ) (tok : OrderToken) (nmid : ℕ) (b : MeOrderBook)
    → IsSound b
    → FreshReplaced a t c k k' type p q tok nmid b
    → (r : Outcome) × (replace_order a t c k k' type p q tok nmid b ≡ some r) × IsSound r.book
unfolding replace_order
replace_order-IsSound a t c k k' type p q tok nmid b v fresh =
    go (b.orders c k) refl (Bool-cases ((k' == 0) || (q == 0)))
  where
    go :
        (x : Option ℕ)
        → b.orders c k ≡ x
        → (((k' == 0) || (q == 0)) ≡ true) ⊎ (((k' == 0) || (q == 0)) ≡ false)
        → (r : Outcome) × (replace_order a t c k k' type p q tok nmid b ≡ some r) × IsSound r.book
    go none e f = (reject (not_found t c k tok) nmid b, rw (e, replace_order) refl, v)
    go (some x) e (inl f) =
        (reject (not_found t c k tok) nmid b, rw (e, replace_order) (rw f refl), v)
    go (some x) e (inr f) =
        let (o, d, h) = follows c k x b v e in
        let (r, run, sound) =
          replace_found-IsSound a (incoming t c k' type p q o.side tok b) o nmid b v (fresh x o e d)
            h in
        (r, rw (e, replace_order) (rw f (rw d run)), sound)

-- An address that no order of the book has before is fresh after the match.

pub Fresh-FreshAdded :
    (a t c k : ℕ) (type : OrderType) (p q : ℕ) (s : Side) (tok : OrderToken) (nmid : ℕ)
    (b : MeOrderBook)
    → IsSound b
    → Fresh a b
    → FreshAdded a t c k type p q s tok nmid b
Fresh-FreshAdded a t c k type p q s tok nmid b v fresh =
    Fresh-FreshAfter a (incoming t c k type p q s tok b) nmid (bump b) (bump-IsSound b v).valid
      fresh

pub Fresh-FreshReplaced :
    (a t c k k' : ℕ) (type : OrderType) (p q : ℕ) (tok : OrderToken) (nmid : ℕ) (b : MeOrderBook)
    → IsSound b
    → Fresh a b
    → FreshReplaced a t c k k' type p q tok nmid b
Fresh-FreshReplaced a t c k k' type p q tok nmid b v fresh x old e d =
    let (o, d', h) = follows c k x b v e in
    let same : o ≡ old = one_result _ o old d' d in
    let h' : Found old b = subst (λ y. Found y b) same h in
    let h'' : Found old (bump b) =
      ap (λ ls. find_order old.address (level_orders old.price ls)) (levels-bump old.side b) ∙ h' in
    Fresh-FreshAfter a (incoming t c k' type p q old.side tok b) nmid (remove old (bump b))
      (remove-IsValid old (bump b) (bump-IsValid b v.valid))
      (All-Splice (λ y. y.address ≢ a) old _ _ (remove-Splice old (bump b) h'') fresh).1
