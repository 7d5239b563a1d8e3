-- ===== src/Tests/Vectors.antt =====
-- The book over vectors.
use nano_exchange.Base.{ℕ, ◌≡◌, refl, Option, none, some, [], ◌∷◌, arith, ◌==◌, if◌then◌else◌}
use nano_exchange.Types.{
  ClientRequestType, MeClientRequest, Side, buy, sell, good_till_cancel, fill_and_kill, zero_token,
}
use nano_exchange.Levels.{
  find_order, level_head, remove_order, write_remaining, unlink, write_orders,
}
use nano_exchange.MapBook
use nano_exchange.MapBook.Operations as MapOperations
use nano_exchange.MapBook.Conservation.{shares}
use nano_exchange.VectorBook.{
  MeOrderBook, PriceLevels, insert_at, remove_at, write_at, insert, remove, set_remaining,
  fill_head, match_level, match_loop, active_orders, match_order,
}
use nano_exchange.VectorBook
use nano_exchange.VectorBook.Operations.{
  Outcome, add_order, rest_or_kill, cancel_order, replace_order,
}
use nano_exchange.VectorBook.Links.{
  LevelLinks, IsLinked, walk, link_after, link_first, insert_before_or_after, insert_price_level,
  remove_price_level,
}
use nano_exchange.VectorBook.Links.Walk.{==_ne, insert_price}
use nano_exchange.VectorBook.Links.Insert.{insert_price_level-IsLinked}
use nano_exchange.VectorBook.Links.Remove.{remove_price}
use nano_exchange.VectorBook.Links.Unlink.{remove_price_level-IsLinked}
use nano_exchange.VectorBook.Refines.{BookRefines}
use nano_exchange.VectorBook.Agreement.{Agree, add_order-refines}
use nano_exchange.VectorBook.Cancels.{CancelRefines, cancel_order-refines}
use nano_exchange.VectorBook.Replaces.{ReplaceRefines, replace_order-refines}
use nano_exchange.VectorBook.Lockstep.{vector_dispatch, Answers, dispatch-InStep}
use nano_exchange.Engine.{dispatch}
use nano_exchange.Engine.Progress.{Fresh-FreshAt}
use nano_exchange.Tests.Books.{order, index, book, book-IsValid}
use nano_exchange.Tests.Engines.{book-IsSound, book-Fresh}

abbrev ask_links : LevelLinks
ask_links = record {
  next = λ p. if p == 101 then some 103 else none;
  prev = λ p. if p == 103 then some 101 else none;
  best = some 101;
}

abbrev vector_asks : PriceLevels
vector_asks = record {
  slots = λ p.
      if 101 == p
      then order 1 1 1 sell 101 5 ∷ order 2 2 2 sell 101 5 ∷ []
      else if 103 == p
      then order 3 1 3 sell 103 5 ∷ []
      else [];
  links = ask_links;
}

abbrev vector_bids : PriceLevels
vector_bids = record {
  slots = λ p. if 99 == p then order 4 3 4 buy 99 5 ∷ [] else [];
  links = record { next = λ p. none; prev = λ p. none; best = some 99 };
}

-- The same orders as in the book over std::map.
abbrev vector_book : MeOrderBook
vector_book = record {
  ticker_id = 0;
  asks = vector_asks;
  bids = vector_bids;
  orders = index;
  next_market_order_id = 5;
}

ask_links-IsLinked : IsLinked (101 ∷ 103 ∷ []) ask_links
ask_links-IsLinked = record {
  chain = (refl, refl, (refl, refl, refl));
  unlinked = λ x h. (rw (==_ne x 101 h.0) refl, rw (==_ne x 103 h.1.0) refl);
}

vector_book-refines : BookRefines vector_book book
vector_book-refines = record {
  same_ticker = refl;
  bids_refine = record {
    ok = book-IsValid.bids_ok;
    linked = record { chain = (refl, refl, refl); unlinked = λ x h. (refl, refl) };
    at_price = λ p. refl;
    bounded = (omega arith, tt);
  };
  asks_refine = record {
    ok = book-IsValid.asks_ok;
    linked = ask_links-IsLinked;
    at_price = λ p. refl;
    bounded = (omega arith, (omega arith, tt));
  };
  same_index = refl;
  same_next_id = refl;
}

-- The shares that a call leaves on both sides.
abbrev left : Option Outcome → Option (ℕ × ℕ)
left none = none
left (some r) =
    some (shares (VectorBook.resting r.book.bids), shares (VectorBook.resting r.book.asks))

bid_fills :
    left (add_order 5 0 9 5 good_till_cancel 102 12 buy zero_token 1 vector_book) ≡ some (7, 5)
unfolding add_order match_order match_loop match_level fill_head set_remaining remove insert
    active_orders write_orders unlink rest_or_kill VectorBook.resting remove_price_level
    insert_price_level insert_before_or_after walk link_after link_first
bid_fills = refl

new_level :
    left (add_order 5 0 9 5 good_till_cancel 102 4 sell zero_token 1 vector_book) ≡ some (5, 19)
unfolding add_order match_order match_loop match_level fill_head set_remaining remove insert
    active_orders write_orders unlink rest_or_kill VectorBook.resting remove_price_level
    insert_price_level insert_before_or_after walk link_after link_first
new_level = refl

out_of_bounds :
    left (add_order 5 0 9 5 good_till_cancel 256000 4 sell zero_token 1 vector_book) ≡ none
unfolding add_order match_order match_loop match_level insert active_orders rest_or_kill
    VectorBook.resting
out_of_bounds = refl

insert_price_level-IsLinked_example :
    (l' : LevelLinks) × (insert_price_level 2 sell 102 ask_links ≡ some l')
    × IsLinked (insert_price sell 102 (101 ∷ 103 ∷ [])) l'
insert_price_level-IsLinked_example =
    insert_price_level-IsLinked sell 102 ask_links 2 (101 ∷ 103 ∷ []) ask_links-IsLinked
      ((omega arith, tt), (tt, tt)) (λ e. ground (arith, e), (λ e. ground (arith, e), tt))
      (omega arith)

remove_price_level-IsLinked_example :
    IsLinked (remove_price 101 (101 ∷ 103 ∷ [])) (remove_price_level 101 ask_links)
remove_price_level-IsLinked_example =
    remove_price_level-IsLinked sell 101 ask_links (101 ∷ 103 ∷ []) ask_links-IsLinked
      ((omega arith, tt), (tt, tt)) refl

add_order-refines_example :
    Agree
      (add_order 5 0 9 5 good_till_cancel 102 12 buy zero_token 1 vector_book)
      (MapOperations.add_order 5 0 9 5 good_till_cancel 102 12 buy zero_token 1 book)
add_order-refines_example =
    add_order-refines 5 0 9 5 good_till_cancel 102 12 buy zero_token 1 vector_book book
      vector_book-refines (omega arith)

abbrev replaced : MapOperations.Outcome
replaced = elim (MapOperations.replace_order 6 0 2 2 7 fill_and_kill 98 9 zero_token 1 book) [
  | none ↦ record { book = book; next_match_id = 0; events = [] }
  | some r ↦ r
]

replace_runs :
    MapOperations.replace_order 6 0 2 2 7 fill_and_kill 98 9 zero_token 1 book ≡ some replaced
unfolding MapOperations.replace_order MapBook.match_order MapBook.match_loop MapBook.match_level
    MapBook.fill_head MapBook.set_remaining MapBook.remove level_head remove_order write_remaining
    unlink write_orders find_order MapOperations.rest_or_kill_replaced
replace_runs = refl

replace_order-refines_example :
    (vr : Outcome) × (replace_order 6 0 2 2 7 fill_and_kill 98 9 zero_token 1 vector_book ≡ some vr)
    × ((side : Side) × ReplaceRefines
          (MapOperations.incoming 0 2 7 fill_and_kill 98 9 side zero_token book)
          vr
          replaced)
replace_order-refines_example =
    replace_order-refines 6 0 2 2 7 fill_and_kill 98 9 zero_token 1 vector_book book replaced
      vector_book-refines (omega arith) replace_runs

abbrev cancelled : MapOperations.Outcome
cancelled = MapOperations.cancel_found 0 2 2 3 (order 2 2 2 sell 101 5) 1 book

cancel_runs : MapOperations.cancel_order 0 2 2 3 zero_token 1 book ≡ some cancelled
unfolding MapOperations.cancel_order find_order
cancel_runs = refl

cancel_order-refines_example :
    (vr : Outcome) × (cancel_order 0 2 2 3 zero_token 1 vector_book ≡ some vr)
    × CancelRefines vr cancelled
cancel_order-refines_example =
    cancel_order-refines 0 2 2 3 zero_token 1 vector_book book cancelled vector_book-refines
      cancel_runs

-- The buy order for 12 at 102 that the first test adds.
abbrev buy_request : MeClientRequest
buy_request = record {
  action = ClientRequestType.new;
  client_id = 0;
  ticker_id = 0;
  client_order_id = 9;
  side = buy;
  order_type = good_till_cancel;
  price = 102;
  qty = 12;
  order_token = zero_token;
  new_client_order_id = 0;
}

dispatch-InStep_example :
    Answers
      (vector_dispatch ClientRequestType.new 6 buy_request 1 vector_book)
      (dispatch ClientRequestType.new 6 buy_request 1 book)
dispatch-InStep_example =
    dispatch-InStep ClientRequestType.new 6 buy_request 1 vector_book book vector_book-refines
      book-IsSound
      (Fresh-FreshAt ClientRequestType.new 6 buy_request 1 book book-IsSound book-Fresh)
      (omega arith)
