-- ===== src/Engine/Progress.antt =====
-- The engine never gets stuck.
use nano_exchange.Base.{
  ℕ, zero, suc, ◌<◌, ◌≡◌, refl, sym, ap, ◌∙◌, subst, some, List, [], ◌∷◌, ◌++◌, All, get_elem?, set,
  get_elem?_in_range, length-set, length,
}
use nano_exchange.Types.{ClientRequestType, MeClientRequest, Event}
use nano_exchange.MapBook.{MeOrderBook}
use nano_exchange.MapBook.Operations.{Outcome}
use nano_exchange.MapBook.Index.{Fresh}
use nano_exchange.MapBook.Soundness.{
  IsSound, FreshAdded, FreshReplaced, Fresh-FreshAdded, Fresh-FreshReplaced, new_book-IsSound,
  add_order-IsSound, cancel_order-IsSound, replace_order-IsSound,
}
use nano_exchange.Engine.Answers.{Answered, dispatch-answers}
use nano_exchange.Engine.{
  MatchingEngine, new_books, new_engine, dispatch, process_client_request, run,
}

-- The address that the pool gives where the request inserts an order is of no order that rests
-- then.
abbrev pub FreshAt : ClientRequestType → ℕ → MeClientRequest → ℕ → MeOrderBook → Type 0
FreshAt ClientRequestType.new a r id b =
    FreshAdded a r.ticker_id r.client_id r.client_order_id r.order_type r.price r.qty r.side
      r.order_token id b
FreshAt ClientRequestType.cancel a r id b = Unit {0}
FreshAt ClientRequestType.modify a r id b =
    FreshReplaced a r.ticker_id r.client_id r.client_order_id r.new_client_order_id r.order_type
      r.price r.qty r.order_token id b

pub Fresh-FreshAt :
    (t : ClientRequestType) (a : ℕ) (r : MeClientRequest) (id : ℕ) (b : MeOrderBook)
    → IsSound b
    → Fresh a b
    → FreshAt t a r id b
Fresh-FreshAt ClientRequestType.new a r id b v f =
    Fresh-FreshAdded a r.ticker_id r.client_id r.client_order_id r.order_type r.price r.qty r.side
      r.order_token id b v f
Fresh-FreshAt ClientRequestType.cancel a r id b v f = tt
Fresh-FreshAt ClientRequestType.modify a r id b v f =
    Fresh-FreshReplaced a r.ticker_id r.client_id r.client_order_id r.new_client_order_id
      r.order_type r.price r.qty r.order_token id b v f

-- The pool of the request's book gives such an address.
abbrev pub PoolGives : ℕ → MeClientRequest → MatchingEngine → Type 0
PoolGives a r e =
    (b : MeOrderBook)
    → get_elem? e.books r.ticker_id ≡ some b
    → FreshAt r.action a r e.next_match_id b

-- What the engine of `n` books comes to, request by request.
pub data Reachable (n : ℕ) : MatchingEngine → Type 0 where
  start : Reachable n (new_engine n)
  step :
      {e e' : MatchingEngine} (a : ℕ) (r : MeClientRequest)
      → Reachable n e
      → r.ticker_id < n
      → PoolGives a r e
      → process_client_request a r e ≡ some e'
      → Reachable n e'

-- Every book is sound, and there are `n`.
pub record EngineOk (n : ℕ) (e : MatchingEngine) : Type 0 where
  pub sound : All IsSound e.books
  pub count : length e.books ≡ n

pub dispatch-IsSound :
    (t : ClientRequestType) (a : ℕ) (r : MeClientRequest) (id : ℕ) (b : MeOrderBook)
    → IsSound b
    → FreshAt t a r id b
    → (o : Outcome) × (dispatch t a r id b ≡ some o) × IsSound o.book
unfolding dispatch
dispatch-IsSound ClientRequestType.new a r id b v f =
    add_order-IsSound a r.ticker_id r.client_id r.client_order_id r.order_type r.price r.qty r.side
      r.order_token id b v f
dispatch-IsSound ClientRequestType.cancel a r id b v f =
    cancel_order-IsSound r.ticker_id r.client_id r.client_order_id r.qty r.order_token id b v
dispatch-IsSound ClientRequestType.modify a r id b v f =
    replace_order-IsSound a r.ticker_id r.client_id r.client_order_id r.new_client_order_id
      r.order_type r.price r.qty r.order_token id b v f

pub All-get {ℓ} :
    {A : Type 0} (P : A → Type ℓ) (xs : List A) (i : ℕ) (x : A)
    → All P xs
    → get_elem? xs i ≡ some x
    → P x
All-get P [] i x h e = cc
All-get P (y ∷ ys) zero x h e = let f : y ≡ x = cc in subst P f h.0
All-get P (y ∷ ys) (suc i) x h e = All-get P ys i x h.1 e

pub All-set {ℓ} :
    {A : Type 0} (P : A → Type ℓ) (xs : List A) (i : ℕ) (x : A)
    → All P xs
    → P x
    → All P (set xs i x)
All-set P [] i x h p = tt
All-set P (y ∷ ys) zero x h p = (p, h.1)
All-set P (y ∷ ys) (suc i) x h p = (h.0, All-set P ys i x h.1 p)

process-EngineOk :
    (n a : ℕ) (r : MeClientRequest) (e : MatchingEngine)
    → EngineOk n e
    → r.ticker_id < n
    → PoolGives a r e
    → (e' : MatchingEngine) × (new : List Event) × (process_client_request a r e ≡ some e')
      × EngineOk n e'
      × (e'.events ≡ e.events ++ new)
      × Answered r.client_id new
unfolding process_client_request
process-EngineOk n a r e v lt f =
    let (b, found) =
      get_elem?_in_range e.books r.ticker_id (subst (λ x. r.ticker_id < x) (sym v.count) lt) in
    let (o, run, sound) =
      dispatch-IsSound r.action a r e.next_match_id b
        (All-get IsSound e.books r.ticker_id b v.sound found) (f b found) in
    (
      record {
        books = set e.books r.ticker_id o.book;
        next_match_id = o.next_match_id;
        events = e.events ++ o.events;
      },
      o.events,
      rw found (rw run refl),
      record {
        sound = All-set IsSound e.books r.ticker_id o.book v.sound sound;
        count = length-set e.books r.ticker_id o.book ∙ v.count;
      },
      refl,
      dispatch-answers r.action a r e.next_match_id b o run,
    )

pub new_books-IsSound : (n t : ℕ) → All IsSound (new_books n t)
new_books-IsSound zero t = tt
new_books-IsSound (suc n) t = (new_book-IsSound t, new_books-IsSound n (suc t))

pub length-new_books : (n t : ℕ) → length (new_books n t) ≡ n
length-new_books zero t = refl
length-new_books (suc n) t = ap suc (length-new_books n (suc t))

-- Whatever requests an engine has processed, of tickers that it has and with pools that give
-- addresses not in use when an order is inserted, every book of it is valid and no pointer of an
-- index dangles.
pub Reachable-EngineOk : (n : ℕ) (e : MatchingEngine) → Reachable n e → EngineOk n e
Reachable-EngineOk n _ start = record {
  sound = new_books-IsSound n 0;
  count = length-new_books n 0;
}
Reachable-EngineOk n _ (step {e} {e'} a r w lt f h) =
    let (e2, _, run2, ok, _, _) = process-EngineOk n a r e (Reachable-EngineOk n e w) lt f in
    let g : some e2 ≡ some e' = sym run2 ∙ h in let g' : e2 ≡ e' = cc in subst (EngineOk n) g' ok

-- An engine never gets stuck: whatever requests it has processed, of tickers that it has and with
-- pools that give addresses not in use when an order is inserted, it processes such a request
-- again, what has been pushed before stays pushed, and among the new pushes is a response to the
-- client of the request.
pub process-progress :
    (n a : ℕ) (r : MeClientRequest) (e : MatchingEngine)
    → Reachable n e
    → r.ticker_id < n
    → PoolGives a r e
    → (e' : MatchingEngine) × (new : List Event) × (process_client_request a r e ≡ some e')
      × Reachable n e'
      × (e'.events ≡ e.events ++ new)
      × Answered r.client_id new
process-progress n a r e w lt f =
    let (e', new, run, _, pushed, answered) =
      process-EngineOk n a r e (Reachable-EngineOk n e w) lt f in
    (e', new, run, step a r w lt f run, pushed, answered)
