-- ===== src/Gateway/Sequencing.antt =====
-- FifoNdProcess loses no request and pushes by arrival time.
use nano_exchange.Base.{
  ℕ, zero, suc, ◌+◌, ◌<◌, ◌≤◌, ◌≡◌, ap, ◌∙◌, ◌≢◌, ◌⊎◌, refl, sym, subst, inl, inr, Bool, true,
  false, List, [], ◌∷◌, ◌++◌, append-nil, append_assoc, length, length-append, length-perm, leb,
  ◌==◌, Bool-cases, arith,
}
use mathlib.Core.List.{Perm, perm_middle}
use mathlib.Core.List.Perm
use nano_exchange.Types.{MeClientRequest}
use nano_exchange.Gateway.Fifo.{
  RecvClientRequest, FifoNdProcess, add_to_pending, grow_pending, push_pending, ordered_pending,
  publish_pending_orders, retain_request, add_or_grow, InOrder, IsSound, new_fifo,
  push_pending-append,
}

length_zero : (rs : List RecvClientRequest) → (length rs == 0) ≡ true → rs ≡ []
length_zero [] h = refl
length_zero (r ∷ rs) h = absurd (ground arith)

InOrder-suffix : (xs ys : List RecvClientRequest) → InOrder (xs ++ ys) → InOrder ys
InOrder-suffix [] ys h = h
InOrder-suffix (x ∷ xs) ys h = InOrder-suffix xs ys h.1

pub new_fifo-IsSound : (n : ℕ) → IsSound (new_fifo n)
unfolding new_fifo
new_fifo-IsSound n = record { within = omega arith; room = ground arith; marked = λ _. tt }

-- A request that is added joins the buffer; it is refused only by a full one.
pub add_to_pending-cases :
    (time : ℕ) (r : MeClientRequest) (f : FifoNdProcess)
    → IsSound f
    → ((add_to_pending time r f ≡ (false, f)) × (f.capacity ≡ length f.pending))
      ⊎ (((add_to_pending time r f).0 ≡ true)
          × ((add_to_pending time r f).1.pending
              ≡ f.pending ++ record { time_nanos = time; request = r } ∷ [])
          × IsSound (add_to_pending time r f).1)
unfolding add_to_pending
add_to_pending-cases time r f v = elim (Bool-cases (leb f.capacity (length f.pending))) [
  | inl e ↦ rw e (inl (refl, let w : length f.pending ≤ f.capacity = v.within in ground arith))
  | inr e ↦ rw e (
      inr (
        refl,
        refl,
        record {
          within =
              let n : length (f.pending ++ record { time_nanos = time; request = r } ∷ [])
                  ≡ length f.pending + 1 =
                length-append f.pending _ in
              ground (arith, n);
          room = v.room;
          marked = λ h. cc;
        },
      ))
]

snoc-perm :
    (r : RecvClientRequest) (xs ys : List RecvClientRequest)
    → Perm xs ys
    → Perm (xs ++ r ∷ []) (r ∷ ys)
snoc-perm r xs ys p = Perm.trans (perm_middle xs []) (rw (append-nil xs) (Perm.cons r p))

grow_pending-IsSound : (f : FifoNdProcess) → IsSound f → IsSound (grow_pending f)
unfolding grow_pending
grow_pending-IsSound f v = record { within = omega arith; room = omega arith; marked = v.marked }

-- A buffer that has grown is not full.
grown-room :
    (f : FifoNdProcess) → IsSound f → (grow_pending f).capacity ≢ length (grow_pending f).pending
unfolding grow_pending
grown-room f v = omega arith

pending-grow : (f : FifoNdProcess) → (grow_pending f).pending ≡ f.pending
unfolding grow_pending
pending-grow f = refl

-- The addition after a publication pushes no more.
add_or_grow-pushed :
    (time : ℕ) (r : MeClientRequest) (out : List RecvClientRequest) (f : FifoNdProcess)
    → (add_or_grow time r out f).1 ≡ out
unfolding add_or_grow
add_or_grow-pushed time r out f = elim (Bool-cases (add_to_pending time r f).0) [
  | inl e ↦ rw e refl
  | inr e ↦ rw e refl
]

add_or_grow-keeps :
    (time : ℕ) (r : MeClientRequest) (out : List RecvClientRequest) (f : FifoNdProcess)
    (before : List RecvClientRequest)
    → IsSound f
    → Perm (out ++ f.pending) before
    → let (added, out', f') = add_or_grow time r out f in
      (added ≡ true)
      × Perm (out' ++ f'.pending) (record { time_nanos = time; request = r } ∷ before)
      × IsSound f'
unfolding add_or_grow
add_or_grow-keeps time r out f before v p = elim (add_to_pending-cases time r f v) [
  | inr (e, q, sound) ↦ rw e (refl, rw q (joined f.pending p), sound)
  | inl (e, full) ↦
      rw e (elim (add_to_pending-cases time r (grow_pending f) (grow_pending-IsSound f v)) [
        | inl (e', full') ↦ absurd (grown-room f v full')
        | inr (e', q, sound) ↦ (e', rw (q, pending-grow f) (joined f.pending p), sound)
      ])
]
  where
    joined :
        (xs : List RecvClientRequest)
        → Perm (out ++ xs) before
        → Perm
            (out ++ (xs ++ record { time_nanos = time; request = r } ∷ []))
            (record { time_nanos = time; request = r } ∷ before)
    joined xs p =
        rw (← append_assoc out xs _)
          (snoc-perm (record { time_nanos = time; request = r }) (out ++ xs) before p)

-- What is pushed: as many requests as the queue accepts, one by one, until it refuses one or none
-- is left. What it refuses is not pushed.
pub record IsAccepted (accepts : ℕ → Bool) (k : ℕ) (out rest : List RecvClientRequest)
    : Type 0 where
  pub taken : (j : ℕ) → j < length out → accepts (k + j) ≡ true
  pub refused : (rest ≡ []) ⊎ (accepts (k + length out) ≡ false)

push_pending-IsAccepted :
    (accepts : ℕ → Bool) (k : ℕ) (rs : List RecvClientRequest)
    → IsAccepted accepts k (push_pending accepts k rs).0 (push_pending accepts k rs).1
unfolding push_pending
push_pending-IsAccepted accepts k [] = record {
  taken = λ j lt. absurd (omega (arith, lt));
  refused = inl refl;
}
push_pending-IsAccepted accepts k (r ∷ rs) = elim (Bool-cases (accepts k)) [
  | inl e ↦
      let v : _ = push_pending-IsAccepted accepts (suc k) rs in
      rw e (record {
        taken = taken' e v.taken;
        refused = elim v.refused [ inl f ↦ inl f | inr f ↦ inr (ap accepts (shift k _) ∙ f) ];
      })
  | inr e ↦ rw e (record {
    taken = λ j lt. absurd (omega (arith, lt));
    refused = inr (ap accepts (shift_zero k) ∙ e);
  })
]
  where
    shift : (a b : ℕ) → a + suc b ≡ suc a + b
    shift a b = omega arith

    shift_zero : (a : ℕ) → a + 0 ≡ a
    shift_zero a = omega arith

    taken' :
        accepts k ≡ true
        → ((j : ℕ) → j < length (push_pending accepts (suc k) rs).0 → accepts (suc k + j) ≡ true)
        → (j : ℕ) → j < suc (length (push_pending accepts (suc k) rs).0)
        → accepts (k + j) ≡ true
    taken' e h zero lt = ap accepts (shift_zero k) ∙ e
    taken' e h (suc j) lt = ap accepts (shift k j) ∙ h j (omega (arith, lt))

-- What std::sort promises of its call by arrival time.
module _ (sort : List RecvClientRequest → List RecvClientRequest)
    (sort-perm : (rs : List RecvClientRequest) → Perm (sort rs) rs)
    (sort-InOrder : (rs : List RecvClientRequest) → InOrder (sort rs)) where
  ordered-perm : (f : FifoNdProcess) → Perm (ordered_pending sort f) f.pending
  ordered-perm f = elim (Bool-cases f.pending_sorted) [
    | inl e ↦ rw e (Perm.refl f.pending)
    | inr e ↦ rw e (sort-perm f.pending)
  ]

  ordered-InOrder : (f : FifoNdProcess) → IsSound f → InOrder (ordered_pending sort f)
  ordered-InOrder f v = elim (Bool-cases f.pending_sorted) [
    | inl e ↦ rw e (v.marked e)
    | inr e ↦ rw e (sort-InOrder f.pending)
  ]

  -- A publication of a sound sequencer, whose sort permutes and orders, pushes a prefix of the
  -- pending requests by arrival time, one by one until the engine's queue refuses one or none is
  -- left, and keeps the rest in that order, the refused one included: together the pushed and the
  -- kept are the pending requests, each as often, and no pushed one is later than a kept one. The
  -- queue has accepted every pushed request. The sequencer stays sound.
  pub publish-in-order :
      (accepts : ℕ → Bool) (f : FifoNdProcess)
      → IsSound f
      → let (out, f') = publish_pending_orders sort accepts f in
        Perm (out ++ f'.pending) f.pending
        × InOrder (out ++ f'.pending)
        × IsAccepted accepts 0 out f'.pending
        × IsSound f'
  unfolding publish_pending_orders
  publish-in-order accepts f v = elim (Bool-cases (length f.pending == 0)) [
    | inl e ↦
        let none_pending : f.pending ≡ [] = length_zero f.pending e in
        rw e (Perm.refl f.pending, rw none_pending tt, nothing none_pending, v)
    | inr e ↦ rw e (
      all,
      rw whole (ordered-InOrder f v),
      push_pending-IsAccepted accepts 0 (ordered_pending sort f),
      sound,
    )
  ]
    where
      nothing : f.pending ≡ [] → IsAccepted accepts 0 [] f.pending
      nothing h = record { taken = λ j lt. absurd (omega (arith, lt)); refused = inl h }

      whole :
          (push_pending accepts 0 (ordered_pending sort f)).0
            ++ (push_pending accepts 0 (ordered_pending sort f)).1
          ≡ ordered_pending sort f
      whole = push_pending-append accepts 0 (ordered_pending sort f)

      all :
          Perm
            ((push_pending accepts 0 (ordered_pending sort f)).0
              ++ (push_pending accepts 0 (ordered_pending sort f)).1)
            f.pending
      all = rw whole (ordered-perm f)

      sound : IsSound (record f {
        pending = (push_pending accepts 0 (ordered_pending sort f)).1;
        pending_sorted = true;
      })
      sound = record {
        within = omega (
          arith,
          v.within,
          length-perm all,
          length-append (push_pending accepts 0 (ordered_pending sort f)).0
              (push_pending accepts 0 (ordered_pending sort f)).1,
        );
        room = v.room;
        marked = λ _.
            InOrder-suffix (push_pending accepts 0 (ordered_pending sort f)).0
              (push_pending accepts 0 (ordered_pending sort f)).1
              (subst InOrder (sym whole) (ordered-InOrder f v));
      }

  -- A sound sequencer, whose sort permutes and orders, always retains a decoded request, and the
  -- code's assertion holds: whichever way it takes, adding, publishing first, or growing the
  -- buffer, the requests pushed and pending after it are those pending before and the new one, each
  -- as often, and the sequencer stays sound. The engine's queue has accepted every request that is
  -- pushed: one that it refuses is pending still.
  pub retain_request-keeps :
      (accepts : ℕ → Bool) (time : ℕ) (r : MeClientRequest) (f : FifoNdProcess)
      → IsSound f
      → let (added, out, f') = retain_request sort accepts time r f in
        (added ≡ true)
        × Perm (out ++ f'.pending) (record { time_nanos = time; request = r } ∷ f.pending)
        × ((j : ℕ) → j < length out → accepts j ≡ true)
        × IsSound f'
  unfolding retain_request
  retain_request-keeps accepts time r f v = elim (add_to_pending-cases time r f v) [
    | inr (e, p, sound) ↦ rw e (
      refl,
      rw p (snoc-perm _ f.pending f.pending (Perm.refl f.pending)),
      λ j lt. absurd (omega (arith, lt)),
      sound,
    )
    | inl (e, full) ↦
        let (p, o, took, v2) = publish-in-order accepts f v in
        let (added, kept, sound) =
          add_or_grow-keeps time r (publish_pending_orders sort accepts f).0
            (publish_pending_orders sort accepts f).1 f.pending v2 p in
        rw e (
          added,
          kept,
          λ j lt.
              let first : 0 + j ≡ j = omega arith in
              ap accepts (sym first)
              ∙ took.taken j (subst (λ xs. j < length xs) (add_or_grow-pushed time r _ _) lt),
          sound,
        )
  ]
