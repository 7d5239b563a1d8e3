-- ===== src/Market/Sockets.antt =====
-- sendAll and recvExact of src/network/market/snapshot_stream.h. The kernel is a parameter: how
-- many bytes the j-th call moves, 0 where it fails, the peer is gone or the deadline has passed.
-- Fuel is the number of the bytes: every round but the last moves one at least.
use nano_exchange.Base.{
  ℕ, zero, suc, ◌+◌, ◌-◌, ◌<◌, ◌≤◌, ◌≡◌, ◌≢◌, ◌⊎◌, refl, sym, ap, ◌∙◌, Bool, true, false, inl, inr,
  Option, none, some, List, [], ◌∷◌, ◌++◌, append_assoc, length, take, drop, length-drop, ◌==◌,
  Bool-cases, ◌>>=◌, arith, ltb, ltb→lt, ltb→le,
}

pub record Sent : Type 0 where
  pub bytes : List ℕ
  pub ok : Bool

-- What has been sent, and what sendAll returns.
unfoldable pub send_all : ℕ → (ℕ → ℕ → ℕ) → ℕ → List ℕ → Option Sent
send_all n send j [] = some (record { bytes = []; ok = true })
send_all zero send j (b ∷ bs) = none
send_all (suc n) send j (b ∷ bs) =
    let k : ℕ = send j (length (b ∷ bs)) in
    elim (k == 0) [
      | true ↦ some (record { bytes = []; ok = false })
      | false ↦ send_all n send (suc j) (drop k (b ∷ bs)) >>= λ r.
          some (record r { bytes = take k (b ∷ bs) ++ r.bytes })
    ]

take-drop : (k : ℕ) (bs : List ℕ) → take k bs ++ drop k bs ≡ bs
take-drop zero bs = refl
take-drop (suc k) [] = refl
take-drop (suc k) (b ∷ bs) = ap (λ xs. b ∷ xs) (take-drop k bs)

-- All is sent, or a part.
abbrev pub SentOk : List ℕ → Sent → Type 0
SentOk bs r =
    ((r.ok ≡ true) × (r.bytes ≡ bs))
    ⊎ ((r.ok ≡ false) × ((rest : List ℕ) × (rest ≢ []) × (bs ≡ r.bytes ++ rest)))

send_all-fuel :
    (n : ℕ) (send : ℕ → ℕ → ℕ) (j : ℕ) (bs : List ℕ)
    → ((i k : ℕ) → send i k ≤ k)
    → length bs ≤ n
    → (r : Sent) × (send_all n send j bs ≡ some r) × SentOk bs r
unfolding send_all
send_all-fuel n send j [] h le = (record { bytes = []; ok = true }, refl, inl (refl, refl))
send_all-fuel zero send j (b ∷ bs) h le = absurd (omega arith)
send_all-fuel (suc n) send j (b ∷ bs) h le = elim (Bool-cases (send j (length (b ∷ bs)) == 0)) [
  | inl e ↦ (
    record { bytes = []; ok = false },
    rw (e, send_all) refl,
    inr (refl, (b ∷ bs, (λ f. cc), refl)),
  )
  | inr e ↦
      let k : ℕ = send j (length (b ∷ bs)) in
      let le_k : k ≤ length (b ∷ bs) = h j (length (b ∷ bs)) in
      let cut : length (drop k (b ∷ bs)) + k ≡ length (b ∷ bs) = length-drop k (b ∷ bs) le_k in
      let (r, run, ok) =
        send_all-fuel n send (suc j) (drop k (b ∷ bs)) h (ground (arith, e, cut)) in
      (
        record r { bytes = take k (b ∷ bs) ++ r.bytes },
        rw (e, send_all) (rw run refl),
        joined k r ok,
      )
]
  where
    joined :
        (k : ℕ) (r : Sent)
        → SentOk (drop k (b ∷ bs)) r
        → SentOk (b ∷ bs) (record r { bytes = take k (b ∷ bs) ++ r.bytes })
    joined k r (inl (ok, e)) = inl (ok, ap (λ xs. take k (b ∷ bs) ++ xs) e ∙ take-drop k (b ∷ bs))
    joined k r (inr (ok, (rest, ne, e))) = inr (
      ok,
      (
        rest,
        ne,
        sym (take-drop k (b ∷ bs))
            ∙ ap (λ xs. take k (b ∷ bs) ++ xs) e
            ∙ sym (append_assoc (take k (b ∷ bs)) r.bytes rest),
      ),
    )

-- sendAll returns, however the kernel cuts what it takes: it has sent all bytes, in order, where it
-- returns true, and a part from the start, not all, where it returns false. A call takes no more
-- bytes than it is given.
pub send_all-total :
    (send : ℕ → ℕ → ℕ) (bs : List ℕ)
    → ((i k : ℕ) → send i k ≤ k)
    → (r : Sent) × (send_all (length bs) send 0 bs ≡ some r) × SentOk bs r
send_all-total send bs h = send_all-fuel (length bs) send 0 bs h (omega arith)

-- What recvExact has read, what is left of the client's bytes, the number of the next call, and
-- what it returns.
pub record Received : Type 0 where
  pub bytes : List ℕ
  pub rest : List ℕ
  pub calls : ℕ
  pub ok : Bool

unfoldable pub recv_exact : ℕ → (ℕ → ℕ → List ℕ → ℕ) → ℕ → ℕ → List ℕ → Option Received
recv_exact n recv j zero s = some (record { bytes = []; rest = s; calls = j; ok = true })
recv_exact zero recv j (suc size) s = none
recv_exact (suc n) recv j (suc size) s =
    let k : ℕ = recv j (suc size) s in
    elim (k == 0) [
      | true ↦ some (record { bytes = []; rest = s; calls = suc j; ok = false })
      | false ↦ recv_exact n recv (suc j) (suc size - k) (drop k s) >>= λ r.
          some (record r { bytes = take k s ++ r.bytes })
    ]

-- A call delivers no more than is wanted or has come, and something where something has come.
pub record IsPrompt (recv : ℕ → ℕ → List ℕ → ℕ) : Type 0 where
  pub within : (j size : ℕ) (s : List ℕ) → recv j size s ≤ size
  pub arrived : (j size : ℕ) (s : List ℕ) → recv j size s ≤ length s
  pub some_byte : (j size : ℕ) (s : List ℕ) → 0 < size → 0 < length s → 0 < recv j size s

abbrev pub ReceivedOk : ℕ → List ℕ → Received → Type 0
ReceivedOk size s r =
    ((size ≤ length s) × (r.ok ≡ true) × (r.bytes ≡ take size s) × (r.rest ≡ drop size s))
    ⊎ ((length s < size) × (r.ok ≡ false))

take-nil : (n : ℕ) → take {A = ℕ} n [] ≡ []
take-nil zero = refl
take-nil (suc n) = refl

drop-nil : (n : ℕ) → drop {A = ℕ} n [] ≡ []
drop-nil zero = refl
drop-nil (suc n) = refl

take-split : (k n : ℕ) (s : List ℕ) → k ≤ n → take k s ++ take (n - k) (drop k s) ≡ take n s
take-split zero n s h = let e : n - 0 ≡ n = omega arith in ap (λ m. take m s) e
take-split (suc k) zero s h = absurd (omega arith)
take-split (suc k) (suc n) [] h = take-nil (suc n - suc k)
take-split (suc k) (suc n) (b ∷ s) h =
    let e : suc n - suc k ≡ n - k = omega arith in
    ap (λ m. b ∷ take k s ++ take m (drop k s)) e
    ∙ ap (λ xs. b ∷ xs) (take-split k n s (omega arith))

drop-split : (k n : ℕ) (s : List ℕ) → k ≤ n → drop (n - k) (drop k s) ≡ drop n s
drop-split zero n s h = let e : n - 0 ≡ n = omega arith in ap (λ m. drop m s) e
drop-split (suc k) zero s h = absurd (omega arith)
drop-split (suc k) (suc n) [] h = drop-nil (suc n - suc k)
drop-split (suc k) (suc n) (b ∷ s) h =
    let e : suc n - suc k ≡ n - k = omega arith in
    ap (λ m. drop m (drop k s)) e ∙ drop-split k n s (omega arith)

pub recv_exact-total :
    (n : ℕ) (recv : ℕ → ℕ → List ℕ → ℕ) (j size : ℕ) (s : List ℕ)
    → IsPrompt recv
    → size ≤ n
    → (r : Received) × (recv_exact n recv j size s ≡ some r) × ReceivedOk size s r
unfolding recv_exact
recv_exact-total n recv j zero s v h = (
  record { bytes = []; rest = s; calls = j; ok = true },
  refl,
  inl (omega arith, refl, refl, refl),
)
recv_exact-total zero recv j (suc size) s v h = absurd (omega arith)
recv_exact-total (suc n) recv j (suc size) s v h = elim (Bool-cases (recv j (suc size) s == 0)) [
  | inl e ↦ (
    record { bytes = []; rest = s; calls = suc j; ok = false },
    rw (e, recv_exact) refl,
    inr (none_came e, refl),
  )
  | inr e ↦
      let k : ℕ = recv j (suc size) s in
      let le : k ≤ suc size = v.within j (suc size) s in
      let le_s : k ≤ length s = v.arrived j (suc size) s in
      let cut : length (drop k s) + k ≡ length s = length-drop k s le_s in
      let (r, run, ok) =
        recv_exact-total n recv (suc j) (suc size - k) (drop k s) v (ground (arith, e)) in
      (
        record r { bytes = take k s ++ r.bytes },
        rw (e, recv_exact) (rw run refl),
        joined k r le cut ok,
      )
]
  where
    none_came : (recv j (suc size) s == 0) ≡ true → length s < suc size
    none_came e = elim (Bool-cases (ltb 0 (length s))) [
      | inl f ↦
          let g : 0 < recv j (suc size) s =
            v.some_byte j (suc size) s (omega arith) (ltb→lt 0 (length s) f) in
          absurd (ground (arith, e, g))
      | inr f ↦ let g : length s ≤ 0 = ltb→le 0 (length s) f in omega arith
    ]

    joined :
        (k : ℕ) (r : Received)
        → k ≤ suc size
        → length (drop k s) + k ≡ length s
        → ReceivedOk (suc size - k) (drop k s) r
        → ReceivedOk (suc size) s (record r { bytes = take k s ++ r.bytes })
    joined k r le cut (inl (a, ok, e, f)) = inl (
      omega arith,
      ok,
      ap (λ xs. take k s ++ xs) e ∙ take-split k (suc size) s le,
      f ∙ drop-split k (suc size) s le,
    )
    joined k r le cut (inr (a, ok)) = inr (omega arith, ok)
