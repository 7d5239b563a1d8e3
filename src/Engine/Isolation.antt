-- ===== src/Engine/Isolation.antt =====
-- The engine keeps its books apart.
use nano_exchange.Base.{
  ℕ, ◌<◌, ◌≡◌, ◌≢◌, refl, some, List, ◌++◌, get_elem?, set, get_elem?-set_ne, get_elem?-set, length,
}
use nano_exchange.Types.{ClientRequestType, MeClientRequest, Event}
use nano_exchange.MapBook.{MeOrderBook}
use nano_exchange.MapBook.Operations.{Outcome}
use nano_exchange.MapBook.Valid.{IsValid}
use nano_exchange.MapBook.Invariant.{
  Points, add_order-IsValid, cancel_order-IsValid, replace_order-IsValid,
}
use nano_exchange.Engine.{MatchingEngine, dispatch, process_client_request}

-- Each action on a valid book whose pointer is not dangling returns, and leaves the book valid.
dispatch-IsValid :
    (t : ClientRequestType) (a : ℕ) (r : MeClientRequest) (id : ℕ) (b : MeOrderBook)
    → IsValid b
    → Points b r.client_id r.client_order_id
    → (o : Outcome) × (dispatch t a r id b ≡ some o) × IsValid o.book
unfolding dispatch
dispatch-IsValid ClientRequestType.new a r id b v p =
    add_order-IsValid a r.ticker_id r.client_id r.client_order_id r.order_type r.price r.qty r.side
      r.order_token id b v
dispatch-IsValid ClientRequestType.cancel a r id b v p =
    cancel_order-IsValid r.ticker_id r.client_id r.client_order_id r.qty r.order_token id b v p
dispatch-IsValid ClientRequestType.modify a r id b v p =
    replace_order-IsValid a r.ticker_id r.client_id r.client_order_id r.new_client_order_id
      r.order_type r.price r.qty r.order_token id b v p

-- A request for a ticker that has a valid book, whose pointer for the client's order is not
-- dangling, is processed: that ticker's book is valid after it, the book of another ticker is
-- untouched, and what has been pushed before stays pushed.
pub process-isolated :
    (a : ℕ) (r : MeClientRequest) (e : MatchingEngine) (b : MeOrderBook) (t : ℕ)
    → get_elem? e.books r.ticker_id ≡ some b
    → r.ticker_id < length e.books
    → IsValid b
    → Points b r.client_id r.client_order_id
    → r.ticker_id ≢ t
    → (e' : MatchingEngine) × (b' : MeOrderBook) × (new : List Event) × (process_client_request a r
          e
        ≡ some e')
      × (get_elem? e'.books r.ticker_id ≡ some b')
      × IsValid b'
      × (get_elem? e'.books t ≡ get_elem? e.books t)
      × (e'.events ≡ e.events ++ new)
unfolding process_client_request
process-isolated a r e b t found lt v p ne =
    let (o, run, valid) = dispatch-IsValid r.action a r e.next_match_id b v p in
    (
      record {
        books = set e.books r.ticker_id o.book;
        next_match_id = o.next_match_id;
        events = e.events ++ o.events;
      },
      o.book,
      o.events,
      rw found (rw run refl),
      get_elem?-set e.books r.ticker_id o.book lt,
      valid,
      get_elem?-set_ne e.books o.book ne,
      refl,
    )
