-- ===== src/VectorBook/Lockstep.antt =====
-- The switch of src/engine/matching_engine.cpp in an engine that is compiled with the book over
-- vectors, and the two books request by request.
use nano_exchange.Base.{ℕ, ◌<◌, ◌≡◌, sym, ◌∙◌, subst, Option, some}
use nano_exchange.Types.{ClientRequestType, MeClientRequest}
use nano_exchange.Engine.{dispatch}
use nano_exchange.MapBook
use nano_exchange.MapBook.Operations as MapOperations
use nano_exchange.Engine.Progress.{FreshAt}
use nano_exchange.MapBook.Soundness.{
  IsSound, add_order-IsSound, cancel_order-IsSound, replace_order-IsSound,
}
use nano_exchange.VectorBook.{max_price_levels}
use nano_exchange.VectorBook
use nano_exchange.VectorBook.Operations as VectorOperations
use nano_exchange.VectorBook.Refines.{BookRefines}
use nano_exchange.VectorBook.Agreement.{add_order-refines}
use nano_exchange.VectorBook.Cancels.{cancel_order-refines}
use nano_exchange.VectorBook.Replaces.{replace_order-refines}

unfoldable pub vector_dispatch :
    ClientRequestType
    → ℕ
    → MeClientRequest
    → ℕ
    → VectorBook.MeOrderBook
    → Option VectorOperations.Outcome
vector_dispatch ClientRequestType.new a r id b =
    VectorOperations.add_order a r.ticker_id r.client_id r.client_order_id r.order_type r.price
      r.qty r.side r.order_token id b
vector_dispatch ClientRequestType.cancel a r id b =
    VectorOperations.cancel_order r.ticker_id r.client_id r.client_order_id r.qty r.order_token id b
vector_dispatch ClientRequestType.modify a r id b =
    VectorOperations.replace_order a r.ticker_id r.client_id r.client_order_id r.new_client_order_id
      r.order_type r.price r.qty r.order_token id b

-- Both books have answered, and are in step after it.
pub record InStep (vr : VectorOperations.Outcome) (r : MapOperations.Outcome) : Type 0 where
  pub books : BookRefines vr.book r.book
  pub same_match_id : vr.next_match_id ≡ r.next_match_id
  pub sound : IsSound r.book

-- What one request does to the two.
abbrev pub Answers : Option VectorOperations.Outcome → Option MapOperations.Outcome → Type 0
Answers x y =
    (vr : VectorOperations.Outcome) × (r : MapOperations.Outcome) × (x ≡ some vr)
    × (y ≡ some r)
    × InStep vr r

-- A request of any type to two books, the one over vectors representing the one over std::map, the
-- latter sound, the pool giving an address that is not in use when an order is inserted, and the
-- price within the arrays: both switches return, the books they leave are again one representing
-- the other, the one over std::map is again sound, and the match counters are the same.
pub dispatch-InStep :
    (t : ClientRequestType) (a : ℕ) (q : MeClientRequest) (id : ℕ) (vb : VectorBook.MeOrderBook)
    (b : MapBook.MeOrderBook)
    → BookRefines vb b
    → IsSound b
    → FreshAt t a q id b
    → q.price < max_price_levels
    → Answers (vector_dispatch t a q id vb) (dispatch t a q id b)
unfolding vector_dispatch dispatch
dispatch-InStep ClientRequestType.new a q id vb b v s f lt =
    let (r1, run1, sound) =
      add_order-IsSound a q.ticker_id q.client_id q.client_order_id q.order_type q.price q.qty
        q.side q.order_token id b s f in
    let (r, run, (vr, vrun, done)) =
      add_order-refines a q.ticker_id q.client_id q.client_order_id q.order_type q.price q.qty
        q.side q.order_token id vb b v lt in
    let e : some r1 ≡ some r = sym run1 ∙ run in
    let e' : r1 ≡ r = cc in
    (
      vr,
      r,
      vrun,
      run,
      record {
        books = done.books;
        same_match_id = done.same_match_id;
        sound = subst (λ x. IsSound x.book) e' sound;
      },
    )
dispatch-InStep ClientRequestType.cancel a q id vb b v s f lt =
    let (r, run, sound) =
      cancel_order-IsSound q.ticker_id q.client_id q.client_order_id q.qty q.order_token id b s in
    let (vr, vrun, done) =
      cancel_order-refines q.ticker_id q.client_id q.client_order_id q.qty q.order_token id vb b r v
        run in
    (
      vr,
      r,
      vrun,
      run,
      record { books = done.books; same_match_id = done.same_match_id; sound = sound },
    )
dispatch-InStep ClientRequestType.modify a q id vb b v s f lt =
    let (r, run, sound) =
      replace_order-IsSound a q.ticker_id q.client_id q.client_order_id q.new_client_order_id
        q.order_type q.price q.qty q.order_token id b s f in
    let (vr, vrun, (_, done)) =
      replace_order-refines a q.ticker_id q.client_id q.client_order_id q.new_client_order_id
        q.order_type q.price q.qty q.order_token id vb b r v lt run in
    (
      vr,
      r,
      vrun,
      run,
      record { books = done.books; same_match_id = done.same_match_id; sound = sound },
    )
