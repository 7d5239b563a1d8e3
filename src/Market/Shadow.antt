-- ===== src/Market/Shadow.antt =====
-- The shadow book of src/network/market/snapshot_stream.h: applyToBook.
use nano_exchange.Base.{
  subst, ◌∙◌, ℕ, ◌-◌, ◌≡◌, refl, Bool, true, false, Option, none, some, List, [], ◌∷◌, leb, ◌==◌,
  if◌then◌else◌, ◌>>=◌, get_elem?, set, Bool-cases, inl, inr, arith, ==_iff,
}
use nano_exchange.Types.{UpdateType, MeMarketUpdate, order_id_invalid}

-- std::unordered_map<OrderId, MEMarketUpdate>, in some order of iteration.
abbrev pub Orders : Type 0
Orders = List (ℕ × MeMarketUpdate)

unfoldable pub find : ℕ → Orders → Option MeMarketUpdate
find k [] = none
find k ((j, u) ∷ m) = if j == k then some u else find k m

-- `orders[k] = u`.
unfoldable pub put : ℕ → MeMarketUpdate → Orders → Orders
put k u [] = (k, u) ∷ []
put k u ((j, w) ∷ m) = if j == k then (j, u) ∷ m else (j, w) ∷ put k u m

unfoldable pub erase : ℕ → Orders → Orders
erase k [] = []
erase k ((j, w) ∷ m) = let rest = erase k m in if j == k then rest else (j, w) ∷ rest

abbrev pub replacement : MeMarketUpdate → MeMarketUpdate
replacement u = record u { market_order_id = u.new_order_id; new_order_id = order_id_invalid }

-- A fill of an order that the map has: it goes when nothing is left of it.
unfoldable pub reduce : MeMarketUpdate → Option MeMarketUpdate → Orders → Orders
reduce u none m = m
reduce u (some w) m =
    if leb w.qty u.qty
    then erase u.market_order_id m
    else put u.market_order_id (record w { qty = w.qty - u.qty }) m

abbrev pub apply_as : UpdateType → MeMarketUpdate → Orders → Orders
apply_as UpdateType.add u m = put u.market_order_id u m
apply_as UpdateType.cancel u m = erase u.market_order_id m
apply_as UpdateType.modify u m = put u.new_order_id (replacement u) (erase u.market_order_id m)
apply_as UpdateType.trade u m = reduce u (find u.market_order_id m) m
apply_as UpdateType.snapshot_start u m = m
apply_as UpdateType.snapshot_end u m = m
apply_as UpdateType.clear u m = m

-- The switch, on the map of the update's ticker.
unfoldable pub apply_update : MeMarketUpdate → Orders → Orders
unfolding put erase reduce find
apply_update u m = apply_as u.update_type u m

abbrev pub changes : UpdateType → Bool
changes UpdateType.add = true
changes UpdateType.cancel = true
changes UpdateType.modify = true
changes UpdateType.trade = true
changes UpdateType.snapshot_start = false
changes UpdateType.snapshot_end = false
changes UpdateType.clear = false

pub record ShadowBook : Type 0 where
  pub tickers : List Orders
  pub dirty : Bool

-- `none` is a ticker out of range, which the code does not check.
unfoldable pub apply_to_book : MeMarketUpdate → ShadowBook → Option ShadowBook
unfolding apply_update
apply_to_book u s = get_elem? s.tickers u.ticker_id >>= λ m. some (record {
  tickers = set s.tickers u.ticker_id (apply_update u m);
  dirty = if changes u.update_type then true else s.dirty;
})

module _ (k j : ℕ) where
  pub find-put :
      (u : MeMarketUpdate) (m : Orders) → find j (put k u m) ≡ (if k == j then some u else find j m)
  unfolding find put
  find-put u [] = refl
  find-put u ((i, w) ∷ m) = ground (arith, find-put u m)

  pub find-erase : (m : Orders) → find j (erase k m) ≡ (if k == j then none else find j m)
  unfolding find erase
  find-erase [] = ground arith
  find-erase ((i, w) ∷ m) = ground (arith, find-erase m)

-- What a client that follows the feed knows of order `j` after an update, from what it knew of it
-- and of the order that the update names.
abbrev pub known :
    UpdateType → MeMarketUpdate → ℕ → (ℕ → Option MeMarketUpdate) → Option MeMarketUpdate
known UpdateType.add u j f = if u.market_order_id == j then some u else f j
known UpdateType.cancel u j f = if u.market_order_id == j then none else f j
known UpdateType.modify u j f =
    if u.new_order_id == j
    then some (replacement u)
    else if u.market_order_id == j
    then none
    else f j
known UpdateType.trade u j f =
    if u.market_order_id == j
    then elim (f j) [
      | none ↦ none
      | some w ↦ if leb w.qty u.qty then none else some (record w { qty = w.qty - u.qty })
    ]
    else f j
known UpdateType.snapshot_start u j f = f j
known UpdateType.snapshot_end u j f = f j
known UpdateType.clear u j f = f j

known_trade :
    (u : MeMarketUpdate) (j : ℕ) (m : Orders) (x : Option MeMarketUpdate)
    → find u.market_order_id m ≡ x
    → find j (reduce u x m) ≡ known UpdateType.trade u j (λ i. find i m)
unfolding reduce
known_trade u j m none e = elim (Bool-cases (u.market_order_id == j)) [
  | inl f ↦
      let e' : find j m ≡ none =
        subst (λ k. find k m ≡ none) ((==_iff u.market_order_id j).0 f) e in
      rw f (rw e' refl)
  | inr f ↦ rw f refl
]
known_trade u j m (some w) e = elim (Bool-cases (u.market_order_id == j)) [
  | inl f ↦
      let e' : find j m ≡ some w =
        subst (λ k. find k m ≡ some w) ((==_iff u.market_order_id j).0 f) e in
      rw f (
        rw e' (elim (Bool-cases (leb w.qty u.qty)) [
          | inl g ↦ rw g (find-erase u.market_order_id j m ∙ rw f refl)
          | inr g ↦ rw g (find-put u.market_order_id j _ m ∙ rw f refl)
        ]))
  | inr f ↦ rw f (elim (Bool-cases (leb w.qty u.qty)) [
    | inl g ↦ rw g (find-erase u.market_order_id j m ∙ rw f refl)
    | inr g ↦ rw g (find-put u.market_order_id j _ m ∙ rw f refl)
  ])
]

-- The shadow book knows of every order what a client that follows the feed knows of it.
pub find-apply_as :
    (t : UpdateType) (u : MeMarketUpdate) (j : ℕ) (m : Orders)
    → find j (apply_as t u m) ≡ known t u j (λ i. find i m)
find-apply_as UpdateType.add u j m = find-put u.market_order_id j u m
find-apply_as UpdateType.cancel u j m = find-erase u.market_order_id j m
find-apply_as UpdateType.modify u j m = rw (
  find-put u.new_order_id j (replacement u) (erase u.market_order_id m),
  find-erase u.market_order_id j m,
)
find-apply_as UpdateType.trade u j m = known_trade u j m (find u.market_order_id m) refl
find-apply_as UpdateType.snapshot_start u j m = refl
find-apply_as UpdateType.snapshot_end u j m = refl
find-apply_as UpdateType.clear u j m = refl
