-- ===== src/Gateway/Fifo.antt =====
-- FifoNdProcess of src/network/gateway/fifo_process.h, the sequencer of decoded requests.
-- std::sort and the engine's queue (QuantLink) are parameters: `sort` is the call of std::sort by
-- `time_nanos_`, and `accepts k` is what the k-th `push` of a call returns.
use nano_exchange.Base.{
  ℕ, suc, ◌*◌, ◌<◌, ◌≤◌, ◌≡◌, refl, ap, inl, inr, Bool, true, false, List, [], ◌∷◌, ◌++◌, length,
  leb, ltb, ◌==◌, if◌then◌else◌, All, Bool-cases,
}
use nano_exchange.Types.{MeClientRequest}

pub record RecvClientRequest : Type 0 where
  pub time_nanos : ℕ
  pub request : MeClientRequest

-- `pending` is the first `pending_size_` entries of the buffer, `capacity` the buffer's size.
pub record FifoNdProcess : Type 0 where
  pub pending : List RecvClientRequest
  pub capacity : ℕ
  pub pending_sorted : Bool

-- The buffer has room for one request at least.
unfoldable pub new_fifo : ℕ → FifoNdProcess
new_fifo max_pending = record {
  pending = [];
  capacity = if ltb max_pending 1 then 1 else max_pending;
  pending_sorted = true;
}

unfoldable pub add_to_pending : ℕ → MeClientRequest → FifoNdProcess → Bool × FifoNdProcess
add_to_pending time r f = if leb f.capacity (length f.pending) then (false, f) else (
  true,
  record f {
    pending = f.pending ++ record { time_nanos = time; request = r } ∷ [];
    pending_sorted = false;
  },
)

unfoldable pub grow_pending : FifoNdProcess → FifoNdProcess
grow_pending f = record f { capacity = f.capacity * 2 }

-- `while (published < pending_size_)`: what is pushed, and what is moved to the front.
unfoldable pub push_pending :
    (ℕ → Bool) → ℕ → List RecvClientRequest → List RecvClientRequest × List RecvClientRequest
push_pending accepts k [] = ([], [])
push_pending accepts k (r ∷ rs) =
    let (out, rest) = push_pending accepts (suc k) rs in
    if accepts k then (r ∷ out, rest) else ([], r ∷ rs)

-- What the sort brings into order is sorted by time, and stays so until a request is added.
abbrev pub ordered_pending :
    (List RecvClientRequest → List RecvClientRequest) → FifoNdProcess → List RecvClientRequest
ordered_pending sort f = if f.pending_sorted then f.pending else sort f.pending

-- The requests pushed to the engine, in order, and the sequencer after.
unfoldable pub publish_pending_orders :
    (List RecvClientRequest → List RecvClientRequest)
    → (ℕ → Bool)
    → FifoNdProcess
    → List RecvClientRequest × FifoNdProcess
publish_pending_orders sort accepts f =
    if length f.pending == 0
    then ([], f)
    else let (out, rest) = push_pending accepts 0 (ordered_pending sort f) in
      (out, record f { pending = rest; pending_sorted = true })

-- After the publication that pushed `out`: add, else grow and add.
unfoldable pub add_or_grow :
    ℕ
    → MeClientRequest
    → List RecvClientRequest
    → FifoNdProcess
    → Bool × List RecvClientRequest × FifoNdProcess
add_or_grow time r out f =
    let (added, f1) = add_to_pending time r f in
    let (added', f2) = add_to_pending time r (grow_pending f) in
    if added then (true, out, f1) else (added', out, f2)

-- The gateway's handling of a decoded request (OrderServer::onRecv): add, else publish and add,
-- else grow and add. The flag is what the code asserts at the end.
unfoldable pub retain_request :
    (List RecvClientRequest → List RecvClientRequest)
    → (ℕ → Bool)
    → ℕ
    → MeClientRequest
    → FifoNdProcess
    → Bool × List RecvClientRequest × FifoNdProcess
retain_request sort accepts time r f =
    let (added, f1) = add_to_pending time r f in
    let (out, f2) = publish_pending_orders sort accepts f in
    let retried = add_or_grow time r out f2 in if added then (true, [], f1) else retried

-- Each time is at most every later one.
abbrev pub InOrder : List RecvClientRequest → Type 0
InOrder [] = Unit {0}
InOrder (r ∷ rs) = All (λ x. r.time_nanos ≤ x.time_nanos) rs × InOrder rs

pub push_pending-append :
    (accepts : ℕ → Bool) (k : ℕ) (rs : List RecvClientRequest)
    → (push_pending accepts k rs).0 ++ (push_pending accepts k rs).1 ≡ rs
unfolding push_pending
push_pending-append accepts k [] = refl
push_pending-append accepts k (r ∷ rs) = elim (Bool-cases (accepts k)) [
  | inl e ↦ rw e (ap (λ x. r ∷ x) (push_pending-append accepts (suc k) rs))
  | inr e ↦ rw e refl
]

-- The buffer never exceeds its capacity, which is positive, and is sorted where it is marked so.
pub record IsSound (f : FifoNdProcess) : Type 0 where
  pub within : length f.pending ≤ f.capacity
  pub room : 0 < f.capacity
  pub marked : f.pending_sorted ≡ true → InOrder f.pending
