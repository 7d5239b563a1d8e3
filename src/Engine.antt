-- ===== src/Engine.antt =====
-- src/engine/matching_engine.h and matching_engine.cpp: the dispatch of a request to the book of
-- its ticker, and the run loop over the request queue. The queues are QuantLink's: a run takes the
-- requests that its input queue delivers, in order, and yields the pushes to its output queues.
-- The addresses that the pool hands out come with the requests.
pub mod Isolation
pub mod Answers
pub mod Progress
use nano_exchange.Base.{
  ℕ, zero, suc, Option, none, some, List, [], ◌∷◌, ◌++◌, ◌>>=◌, get_elem?, set,
}
use nano_exchange.Types.{ClientRequestType, MeClientRequest, Event}
use nano_exchange.MapBook.{MeOrderBook, new_book}
use nano_exchange.MapBook.Operations.{Outcome, add_order, cancel_order, replace_order}

-- `ticker_order_book_` and `next_match_id_`; the events are what has been pushed.
pub record MatchingEngine : Type 0 where
  pub books : List MeOrderBook
  pub next_match_id : ℕ
  pub events : List Event

-- One book for each ticker from `t` on.
abbrev pub new_books : ℕ → ℕ → List MeOrderBook
new_books zero t = []
new_books (suc n) t = new_book t ∷ new_books n (suc t)

abbrev pub new_engine : ℕ → MatchingEngine
new_engine max_order_books = record {
  books = new_books max_order_books 0;
  next_match_id = 1;
  events = [];
}

-- The switch on the request's action.
unfoldable pub dispatch : ClientRequestType → ℕ → MeClientRequest → ℕ → MeOrderBook → Option Outcome
dispatch ClientRequestType.new a r id b =
    add_order a r.ticker_id r.client_id r.client_order_id r.order_type r.price r.qty r.side
      r.order_token id b
dispatch ClientRequestType.cancel a r id b =
    cancel_order r.ticker_id r.client_id r.client_order_id r.qty r.order_token id b
dispatch ClientRequestType.modify a r id b =
    replace_order a r.ticker_id r.client_id r.client_order_id r.new_client_order_id r.order_type
      r.price r.qty r.order_token id b

-- `none` also stands for a ticker that has no book: the code indexes the vector unchecked.
unfoldable pub process_client_request : ℕ → MeClientRequest → MatchingEngine → Option MatchingEngine
unfolding dispatch
process_client_request a r e = get_elem? e.books r.ticker_id >>= λ b.
    dispatch r.action a r e.next_match_id b >>= λ o. some (record {
      books = set e.books r.ticker_id o.book;
      next_match_id = o.next_match_id;
      events = e.events ++ o.events;
    })

-- The requests are taken in the order of the queue.
unfoldable pub run : List (ℕ × MeClientRequest) → MatchingEngine → Option MatchingEngine
unfolding process_client_request
run [] e = some e
run ((a, r) ∷ rs) e = process_client_request a r e >>= λ e'. run rs e'
