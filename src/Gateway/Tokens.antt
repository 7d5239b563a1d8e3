-- ===== src/Gateway/Tokens.antt =====
-- OrderTokenManager of src/network/gateway/token_manager.h. `token_to_id_` is an association list
-- under the pair of its two keys; a token is compared by its bytes, as the string views are.
use nano_exchange.Base.{
  ℕ, ◌+◌, Bool, true, false, ◌&&◌, Option, none, some, List, [], ◌∷◌, leb, ltb, ◌==◌, if◌then◌else◌,
}
use nano_exchange.Types.{OrderToken}

pub record Info : Type 0 where
  pub token : OrderToken
  pub ticker_id : ℕ
  pub client_id : ℕ

pub record Entry : Type 0 where
  pub client : ℕ
  pub token : OrderToken
  pub id : ℕ

-- `pool_size` is the size of the vector `id_to_token_`, one more than the pool; a slot that was
-- never written is `none`.
pub record OrderTokenManager : Type 0 where
  pub pool_size : ℕ
  pub id_to_token : ℕ → Option Info
  pub token_to_id : List Entry
  pub next_internal_id : ℕ

unfoldable pub new_manager : ℕ → OrderTokenManager
new_manager size = record {
  pool_size = size + 1;
  id_to_token = λ n. none;
  token_to_id = [];
  next_internal_id = 1;
}

-- memcmp of two tokens.
unfoldable pub token_eq : OrderToken → OrderToken → Bool
token_eq [] [] = true
token_eq [] (y ∷ ys) = false
token_eq (x ∷ xs) [] = false
token_eq (x ∷ xs) (y ∷ ys) = (x == y) && token_eq xs ys

unfoldable pub assign : ℕ → OrderToken → ℕ → List Entry → List Entry
unfolding token_eq
assign c t n [] = record { client = c; token = t; id = n } ∷ []
assign c t n (e ∷ es) =
    if (e.client == c) && token_eq e.token t then record e { id = n } ∷ es else e ∷ assign c t n es

unfoldable pub find_entry : ℕ → OrderToken → List Entry → Option ℕ
unfolding token_eq
find_entry c t [] = none
find_entry c t (e ∷ es) =
    if (e.client == c) && token_eq e.token t then some e.id else find_entry c t es

-- The id, or 0 when the pool is exhausted.
unfoldable pub register_new_token : ℕ → OrderToken → ℕ → OrderTokenManager → ℕ × OrderTokenManager
unfolding assign
register_new_token c t ticker m = if leb m.pool_size m.next_internal_id then (0, m) else (
  m.next_internal_id,
  record m {
    id_to_token = λ n.
        if n == m.next_internal_id
        then some (record { token = t; ticker_id = ticker; client_id = c })
        else m.id_to_token n;
    token_to_id = assign c t m.next_internal_id m.token_to_id;
    next_internal_id = m.next_internal_id + 1;
  },
)

-- 0 where the client has no such token.
unfoldable pub get_id : ℕ → OrderToken → OrderTokenManager → ℕ
unfolding find_entry
get_id c t m = elim (find_entry c t m.token_to_id) [ none ↦ 0 | some n ↦ n ]

unfoldable pub get_token : ℕ → OrderTokenManager → Option OrderToken
get_token n m =
    if ltb 0 n && ltb n m.next_internal_id
    then elim (m.id_to_token n) [ none ↦ none | some s ↦ some s.token ]
    else none
