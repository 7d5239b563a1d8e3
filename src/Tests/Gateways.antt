-- ===== src/Tests/Gateways.antt =====
-- The sequencer, the tokens and the decoder. Insertion sort stands for std::sort.
use nano_exchange.Base.{
  ℕ, ◌<◌, ◌≤◌, ◌≡◌, refl, Bool, true, false, none, some, List, [], ◌∷◌, ◌++◌, All, All-map, arith,
  if◌then◌else◌, ◌==◌, leb, Bool-cases, inl, inr, map, length,
}
use mathlib.Core.List.{Perm}
use mathlib.Core.List.Perm
use nano_exchange.Types.{ClientRequestType, MeClientRequest, OrderToken, zero_token}
use nano_exchange.Gateway.Fifo.{
  RecvClientRequest, FifoNdProcess, InOrder, IsSound, publish_pending_orders, retain_request,
  push_pending, add_to_pending, grow_pending, add_or_grow,
}
use nano_exchange.Gateway.Sequencing.{IsAccepted, publish-in-order, retain_request-keeps}
use nano_exchange.Gateway.Tokens.{OrderTokenManager, new_manager, register_new_token, get_id}
use nano_exchange.Gateway.Isolation.{
  get_id-register, IsOwned, SlotOf, new_manager-IsOwned, register-IsOwned, same_key,
}
use nano_exchange.Protocol.Ouch.{Inbound, cancel, replace, decode_ouch, blank_request}
use nano_exchange.Protocol.Bounds.{InRange, IdsFit, decode_ouch-InRange}
use nano_exchange.Protocol.Ownership.{decode_ouch-Own}
use nano_exchange.Protocol.Itch.{write_timestamp, read_timestamp, read_timestamp-write}

insert_by_time : RecvClientRequest → List RecvClientRequest → List RecvClientRequest
insert_by_time r [] = r ∷ []
insert_by_time r (x ∷ xs) =
    if leb r.time_nanos x.time_nanos then r ∷ x ∷ xs else x ∷ insert_by_time r xs

pub sort_by_time : List RecvClientRequest → List RecvClientRequest
unfolding insert_by_time
sort_by_time [] = []
sort_by_time (r ∷ rs) = insert_by_time r (sort_by_time rs)

insert_by_time-perm :
    (r : RecvClientRequest) (xs : List RecvClientRequest) → Perm (insert_by_time r xs) (r ∷ xs)
unfolding insert_by_time
insert_by_time-perm r [] = Perm.refl (r ∷ [])
insert_by_time-perm r (x ∷ xs) = elim (Bool-cases (leb r.time_nanos x.time_nanos)) [
  | inl e ↦ rw e (Perm.refl (r ∷ x ∷ xs))
  | inr e ↦ rw e (Perm.trans (Perm.cons x (insert_by_time-perm r xs)) (Perm.swap r x xs))
]

pub sort-perm : (rs : List RecvClientRequest) → Perm (sort_by_time rs) rs
unfolding sort_by_time
sort-perm [] = Perm.refl []
sort-perm (r ∷ rs) =
    Perm.trans (insert_by_time-perm r (sort_by_time rs)) (Perm.cons r (sort-perm rs))

insert_by_time-All :
    (t : ℕ) (r : RecvClientRequest) (xs : List RecvClientRequest)
    → t ≤ r.time_nanos
    → All (λ x. t ≤ x.time_nanos) xs
    → All (λ x. t ≤ x.time_nanos) (insert_by_time r xs)
unfolding insert_by_time
insert_by_time-All t r [] h v = (h, tt)
insert_by_time-All t r (x ∷ xs) h v = elim (Bool-cases (leb r.time_nanos x.time_nanos)) [
  | inl e ↦ rw e (h, v)
  | inr e ↦ rw e (v.0, insert_by_time-All t r xs h v.1)
]

insert_by_time-InOrder :
    (r : RecvClientRequest) (xs : List RecvClientRequest)
    → InOrder xs
    → InOrder (insert_by_time r xs)
unfolding insert_by_time
insert_by_time-InOrder r [] v = (tt, tt)
insert_by_time-InOrder r (x ∷ xs) v = elim (Bool-cases (leb r.time_nanos x.time_nanos)) [
  | inl e ↦
      let le : r.time_nanos ≤ x.time_nanos = ground arith in
      rw e ((le, All-map _ _ xs (λ y (h : x.time_nanos ≤ y.time_nanos). omega arith) v.0), v)
  | inr e ↦
      let le : x.time_nanos ≤ r.time_nanos = ground arith in
      rw e (insert_by_time-All x.time_nanos r xs le v.0, insert_by_time-InOrder r xs v.1)
]

pub sort-InOrder : (rs : List RecvClientRequest) → InOrder (sort_by_time rs)
unfolding sort_by_time
sort-InOrder [] = tt
sort-InOrder (r ∷ rs) = insert_by_time-InOrder r (sort_by_time rs) (sort-InOrder rs)

abbrev at_time : ℕ → RecvClientRequest
at_time t = record { time_nanos = t; request = blank_request t }

-- Full, with the requests of two clients out of order.
abbrev fifo : FifoNdProcess
fifo = record { pending = at_time 30 ∷ at_time 10 ∷ []; capacity = 2; pending_sorted = false }

fifo-IsSound : IsSound fifo
fifo-IsSound = record { within = omega arith; room = omega arith; marked = λ e. cc }

-- The queue takes one request.
abbrev takes_one : ℕ → Bool
takes_one k = k == 0

publishes_earliest :
    map (λ r. r.time_nanos) (publish_pending_orders sort_by_time takes_one fifo).0 ≡ 10 ∷ []
unfolding publish_pending_orders sort_by_time push_pending
publishes_earliest = refl

grows_when_stuck :
    (retain_request sort_by_time (λ k. false) 20 (blank_request 20) fifo).2.capacity ≡ 4
unfolding retain_request publish_pending_orders sort_by_time push_pending add_to_pending
    grow_pending add_or_grow
grows_when_stuck = refl

publish-in-order_example :
    let (out, f') = publish_pending_orders sort_by_time takes_one fifo in
    Perm (out ++ f'.pending) (at_time 30 ∷ at_time 10 ∷ [])
    × InOrder (out ++ f'.pending)
    × IsAccepted takes_one 0 out f'.pending
    × IsSound f'
publish-in-order_example =
    publish-in-order sort_by_time sort-perm sort-InOrder takes_one fifo fifo-IsSound

retain_request-keeps_example :
    let (added, out, f') = retain_request sort_by_time takes_one 20 (blank_request 20) fifo in
    (added ≡ true)
    × Perm (out ++ f'.pending) (at_time 20 ∷ at_time 30 ∷ at_time 10 ∷ [])
    × ((j : ℕ) → j < length out → takes_one j ≡ true)
    × IsSound f'
retain_request-keeps_example =
    retain_request-keeps sort_by_time sort-perm sort-InOrder takes_one 20 (blank_request 20) fifo
      fifo-IsSound

-- Client 7 has registered one token.
abbrev manager : OrderTokenManager
unfolding register_new_token new_manager
manager = (register_new_token 7 zero_token 3 (new_manager 10)).1

manager-IsOwned : IsOwned manager
unfolding register_new_token new_manager
manager-IsOwned = register-IsOwned 7 zero_token 3 (new_manager 10) (new_manager-IsOwned 10)

get_id-register_example :
    get_id 8 zero_token (register_new_token 8 zero_token 3 (new_manager 10)).1
    ≡ (if same_key 8 zero_token 8 zero_token then 1 else get_id 8 zero_token (new_manager 10))
unfolding new_manager
get_id-register_example = get_id-register 8 zero_token 3 (new_manager 10) 8 zero_token (omega arith)

abbrev cancel_message : Inbound
cancel_message = cancel (record { order_token = zero_token; shares = 0 })

abbrev canceled : MeClientRequest
canceled = record (blank_request 7) {
  action = ClientRequestType.cancel;
  client_order_id = 1;
  ticker_id = 3;
}

-- Another client that names the token is refused.
refused : (decode_ouch cancel_message 8 manager).0 ≡ none
unfolding decode_ouch get_id register_new_token new_manager
refused = refl

decodes : decode_ouch cancel_message 7 manager ≡ (some canceled, manager)
unfolding decode_ouch get_id register_new_token new_manager
decodes = refl

decode_ouch-Own_example :
    IsOwned manager × (canceled.client_id ≡ 7) × ((t : OrderToken) × SlotOf manager 7 t 1)
decode_ouch-Own_example =
    decode_ouch-Own cancel_message 7 manager canceled manager manager-IsOwned decodes

-- The client replaces the order of its token by one of the same token.
abbrev replace_message : Inbound
replace_message = replace (record {
  existing_order_token = zero_token;
  replacement_order_token = zero_token;
  shares = 5;
  price = 100;
  time_in_force = 0;
})

manager-InRange : InRange manager
unfolding register_new_token new_manager
manager-InRange = record { some_slot = omega arith; next_fits = omega arith }

decode_ouch-InRange_example :
    InRange (decode_ouch replace_message 7 manager).1
    × ((decode_ouch replace_message 7 manager).1.pool_size ≡ manager.pool_size)
    × ((c : ℕ) (t : OrderToken)
        → get_id c t (decode_ouch replace_message 7 manager).1 < manager.pool_size)
    × IdsFit manager.pool_size (decode_ouch replace_message 7 manager).0
decode_ouch-InRange_example =
    decode_ouch-InRange replace_message 7 manager manager-IsOwned manager-InRange

read_timestamp-write_example : read_timestamp (write_timestamp 1_000_000_007) ≡ 1_000_000_007
read_timestamp-write_example = read_timestamp-write 1_000_000_007 (omega arith)
