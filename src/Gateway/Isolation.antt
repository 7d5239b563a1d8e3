-- ===== src/Gateway/Isolation.antt =====
-- A client reaches only the orders of its own tokens.
use nano_exchange.Base.{
  ℕ, ◌+◌, ◌<◌, ◌≡◌, refl, sym, ap₂, ◌∙◌, Bool, true, false, ◌&&◌, Option, some, List, [], ◌∷◌, leb,
  ◌==◌, if◌then◌else◌, ◌⊎◌, Bool-cases, inl, inr, ==_refl, ==_iff, arith,
}
use nano_exchange.Types.{OrderToken}
use nano_exchange.Gateway.Tokens.{
  Info, Entry, OrderTokenManager, token_eq, assign, find_entry, register_new_token, get_id,
  new_manager,
}

token_eq→eq : (xs ys : OrderToken) → token_eq xs ys ≡ true → xs ≡ ys
unfolding token_eq
token_eq→eq [] [] h = refl
token_eq→eq [] (y ∷ ys) h = cc
token_eq→eq (x ∷ xs) [] h = cc
token_eq→eq (x ∷ xs) (y ∷ ys) h = elim (Bool-cases (x == y)) [
  | inl e ↦ ap₂ ◌∷◌ ((==_iff x y).0 e) (token_eq→eq xs ys (rw e at h))
  | inr e ↦ let k : false ≡ true = rw e at h in cc
]

token_eq_refl : (xs : OrderToken) → token_eq xs xs ≡ true
unfolding token_eq
token_eq_refl [] = refl
token_eq_refl (x ∷ xs) = rw (==_refl x) (token_eq_refl xs)

-- Two keys of the map are the same.
abbrev pub same_key : ℕ → OrderToken → ℕ → OrderToken → Bool
same_key c t c' t' = (c == c') && token_eq t t'

same_key→eq :
    (c : ℕ) (t : OrderToken) (c' : ℕ) (t' : OrderToken)
    → same_key c t c' t' ≡ true
    → (c ≡ c') × (t ≡ t')
same_key→eq c t c' t' h = elim (Bool-cases (c == c')) [
  | inl e ↦ ((==_iff c c').0 e, token_eq→eq t t' (rw e at h))
  | inr e ↦ let k : false ≡ true = rw e at h in cc
]

same_key_refl : (c : ℕ) (t : OrderToken) → same_key c t c t ≡ true
same_key_refl c t = rw (==_refl c) (token_eq_refl t)

find-assign :
    (c : ℕ) (t : OrderToken) (c' : ℕ) (t' : OrderToken) (n : ℕ) (es : List Entry)
    → find_entry c' t' (assign c t n es)
      ≡ (if same_key c t c' t' then some n else find_entry c' t' es)
unfolding find_entry assign
find-assign c t c' t' n [] = refl
find-assign c t c' t' n (e ∷ es) =
    split (Bool-cases (same_key e.client e.token c t))
      (Bool-cases (same_key e.client e.token c' t')) (find-assign c t c' t' n es)
  where
    split :
        (same_key e.client e.token c t ≡ true) ⊎ (same_key e.client e.token c t ≡ false)
        → (same_key e.client e.token c' t' ≡ true) ⊎ (same_key e.client e.token c' t' ≡ false)
        → find_entry c' t' (assign c t n es)
          ≡ (if same_key c t c' t' then some n else find_entry c' t' es)
        → find_entry c' t' (assign c t n (e ∷ es))
          ≡ (if same_key c t c' t' then some n else find_entry c' t' (e ∷ es))
    split (inl a) b ih =
        let (x, y) = same_key→eq e.client e.token c t a in
        let k : same_key e.client e.token c' t' ≡ same_key c t c' t' =
          ap₂ (λ u v. same_key u v c' t') x y in
        rw a
          (rw k (elim (Bool-cases (same_key c t c' t')) [ inl z ↦ rw z refl | inr z ↦ rw z refl ]))
    split (inr a) (inl b) ih =
        let (x, y) = same_key→eq e.client e.token c' t' b in
        let k : same_key e.client e.token c t ≡ same_key c' t' c t =
          ap₂ (λ u v. same_key u v c t) x y in
        rw a (
          rw b (elim (Bool-cases (same_key c t c' t')) [
            | inl z ↦
                let (x', y') = same_key→eq c t c' t' z in
                let w : same_key e.client e.token c t ≡ true =
                  k ∙ ap₂ (λ u v. same_key u v c t) (sym x') (sym y') ∙ same_key_refl c t in
                absurd (let q : true ≡ false = sym w ∙ a in cc)
            | inr z ↦ rw z refl
          ]))
    split (inr a) (inr b) ih = rw a (rw b ih)

-- A token that a client registers resolves to the id just drawn, also where the client has used it
-- before; every other token of it, and every token of another client, resolves as before. The pool
-- is not exhausted.
pub get_id-register :
    (c : ℕ) (t : OrderToken) (ticker : ℕ) (m : OrderTokenManager) (c' : ℕ) (t' : OrderToken)
    → m.next_internal_id < m.pool_size
    → get_id c' t' (register_new_token c t ticker m).1
      ≡ (if same_key c t c' t' then m.next_internal_id else get_id c' t' m)
unfolding get_id register_new_token
get_id-register c t ticker m c' t' h =
    let full : leb m.pool_size m.next_internal_id ≡ false = ground arith in
    rw full (
      rw (find-assign c t c' t' m.next_internal_id m.token_to_id, get_id)
        (elim (Bool-cases (same_key c t c' t')) [ inl z ↦ rw z refl | inr z ↦ rw z refl ]))

-- The slot of an id is the client's, with the token.
abbrev pub SlotOf : OrderTokenManager → ℕ → OrderToken → ℕ → Type 0
SlotOf m c t n =
    (0 < n)
    × (n < m.next_internal_id)
    × ((s : Info) × (m.id_to_token n ≡ some s) × (s.client_id ≡ c) × (s.token ≡ t))

-- Every id that a token resolves to was drawn for that client and that token.
pub record IsOwned (m : OrderTokenManager) : Type 0 where
  pub positive : 0 < m.next_internal_id
  pub owned :
      (c : ℕ) (t : OrderToken) (n : ℕ) → find_entry c t m.token_to_id ≡ some n → SlotOf m c t n

pub new_manager-IsOwned : (size : ℕ) → IsOwned (new_manager size)
unfolding new_manager find_entry
new_manager-IsOwned size = record { positive = omega arith; owned = λ c t n h. absurd (cc) }

-- Registration keeps it, also when the pool is exhausted.
pub register-IsOwned :
    (c : ℕ) (t : OrderToken) (ticker : ℕ) (m : OrderTokenManager)
    → IsOwned m
    → IsOwned (register_new_token c t ticker m).1
unfolding register_new_token
register-IsOwned c t ticker m v = elim (Bool-cases (leb m.pool_size m.next_internal_id)) [
  | inl e ↦ rw e v
  | inr e ↦ rw e (record { positive = omega arith; owned = kept })
]
  where
    slots : ℕ → Option Info
    slots n =
        if n == m.next_internal_id
        then some (record { token = t; ticker_id = ticker; client_id = c })
        else m.id_to_token n

    kept :
        (c' : ℕ) (t' : OrderToken) (n : ℕ)
        → find_entry c' t' (assign c t m.next_internal_id m.token_to_id) ≡ some n
        → (0 < n)
          × (n < m.next_internal_id + 1)
          × ((s : Info) × (slots n ≡ some s) × (s.client_id ≡ c') × (s.token ≡ t'))
    kept c' t' n h = elim (Bool-cases (same_key c t c' t')) [
      | inl z ↦
          let (x, y) = same_key→eq c t c' t' z in
          let k : some m.next_internal_id ≡ some n =
            rw z at (sym (find-assign c t c' t' m.next_internal_id m.token_to_id) ∙ h) in
          let e : m.next_internal_id ≡ n = cc in
          let f : (n == m.next_internal_id) ≡ true = ground arith in
          let pos : 0 < m.next_internal_id = v.positive in
          (
            omega arith,
            omega arith,
            (record { token = t; ticker_id = ticker; client_id = c }, rw f refl, x, y),
          )
      | inr z ↦
          let k : find_entry c' t' m.token_to_id ≡ some n =
            rw z at (sym (find-assign c t c' t' m.next_internal_id m.token_to_id) ∙ h) in
          let (pos, lt, (s, e, x, y)) = v.owned c' t' n k in
          let f : (n == m.next_internal_id) ≡ false = ground arith in
          (pos, omega arith, (s, rw f e, x, y))
    ]
