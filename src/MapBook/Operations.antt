-- ===== src/MapBook/Operations.antt =====
-- The public operations of the book over std::map: addOrder, cancelOrder and replaceOrder of
-- src/engine/order_book/order_book_map.cpp. `none` is a loop that ran out of fuel, or the use of
-- a pointer at which there is no order.
use nano_exchange.Base.{
  ℕ, ◌-◌, true, false, ◌||◌, Option, none, some, List, [], ◌∷◌, ◌++◌, ltb, ◌==◌, if◌then◌else◌,
  ◌>>=◌, inc64,
}
use nano_exchange.Types.{
  Side, buy, OrderType, good_till_cancel, fill_and_kill, ResponseType, UpdateType, OrderToken,
  MeClientResponse, MeMarketUpdate, MeOrder, Event, response, update, price_invalid,
  order_id_invalid,
}
use nano_exchange.Levels.{resting, find_order}
use nano_exchange.MapBook.{
  MeOrderBook, Incoming, Matching, insert, remove, set_remaining, match_order, own_response,
}

-- What a call leaves: the book, the engine's match counter, the pushes.
pub record Outcome : Type 0 where
  pub book : MeOrderBook
  pub next_match_id : ℕ
  pub events : List Event

-- What the pointer points to.
unfoldable pub deref : ℕ → MeOrderBook → Option MeOrder
deref a b = find_order a (resting b.bids ++ resting b.asks)

abbrev pub add_update : Incoming → ℕ → MeMarketUpdate
add_update i qty = record {
  ticker_id = i.ticker_id;
  market_order_id = i.market_order_id;
  update_type = UpdateType.add;
  side = i.side;
  price = i.price;
  qty = qty;
  new_order_id = order_id_invalid;
  match_id = order_id_invalid;
}

abbrev pub cancel_update : ℕ → ℕ → Side → ℕ → ℕ → MeMarketUpdate
cancel_update ticker_id market_order_id side price qty = record {
  ticker_id = ticker_id;
  market_order_id = market_order_id;
  update_type = UpdateType.cancel;
  side = side;
  price = price;
  qty = qty;
  new_order_id = order_id_invalid;
  match_id = order_id_invalid;
}

abbrev pub modify_update : Incoming → ℕ → MeMarketUpdate
modify_update i old_market_order_id = record {
  ticker_id = i.ticker_id;
  market_order_id = old_market_order_id;
  update_type = UpdateType.modify;
  side = i.side;
  price = i.price;
  qty = i.initial_quantity;
  new_order_id = i.market_order_id;
  match_id = order_id_invalid;
}

-- What follows the match in addOrder.
unfoldable pub rest_or_kill : ℕ → Incoming → Matching → Outcome
rest_or_kill address i m =
    if ltb 0 m.remaining
    then elim i.order_type [
      | good_till_cancel ↦ record {
        book = insert address i m.remaining m.book;
        next_match_id = m.next_match_id;
        events = m.events ++ update (add_update i m.remaining) ∷ [];
      }
      | fill_and_kill ↦ record {
        book = m.book;
        next_match_id = m.next_match_id;
        events =
            m.events
            ++ response
                (own_response i ResponseType.canceled 0 i.price m.remaining order_id_invalid)
              ∷ [];
      }
    ]
    else record { book = m.book; next_match_id = m.next_match_id; events = m.events }

abbrev pub prepend : List Event → Outcome → Outcome
prepend es r = record r { events = es ++ r.events }

-- The market order id is the next of the book.
abbrev pub incoming : ℕ → ℕ → ℕ → OrderType → ℕ → ℕ → Side → OrderToken → MeOrderBook → Incoming
incoming ticker_id client_id client_order_id order_type price qty side token b = record {
  ticker_id = ticker_id;
  client_id = client_id;
  client_order_id = client_order_id;
  market_order_id = b.next_market_order_id;
  order_type = order_type;
  price = price;
  initial_quantity = qty;
  side = side;
  order_token = token;
}

abbrev pub bump : MeOrderBook → MeOrderBook
bump b = record b { next_market_order_id = inc64 b.next_market_order_id }

-- All that addOrder does after the match, and its first push.
abbrev pub add_outcome : ℕ → Incoming → Matching → Outcome
add_outcome address i m =
    prepend
      (response (own_response i ResponseType.accepted 0 i.price i.initial_quantity order_id_invalid)
        ∷ [])
      (rest_or_kill address i m)

-- addOrder over its arguments and the market order id that it draws.
unfoldable pub add_incoming : ℕ → Incoming → ℕ → MeOrderBook → Option Outcome
add_incoming address i next_match_id b =
    match_order i next_match_id (bump b) >>= λ m. some (add_outcome address i m)

unfoldable pub add_order :
    ℕ → ℕ → ℕ → ℕ → OrderType → ℕ → ℕ → Side → OrderToken → ℕ → MeOrderBook → Option Outcome
unfolding add_incoming
add_order address ticker_id client_id client_order_id order_type price qty side token nmid b =
    add_incoming address
      (incoming ticker_id client_id client_order_id order_type price qty side token b) nmid b

-- The rejection of a request whose order is not found.
abbrev pub not_found : ℕ → ℕ → ℕ → OrderToken → MeClientResponse
not_found ticker_id client_id client_order_id token = record {
  client_id = client_id;
  client_order_id = client_order_id;
  market_order_id = order_id_invalid;
  price = price_invalid;
  execution_price = price_invalid;
  match_id = order_id_invalid;
  ticker_id = ticker_id;
  qty = 0;
  executed_qty = 0;
  leaves_qty = 0;
  side = buy;
  order_type = good_till_cancel;
  status = ResponseType.cancel_rejected;
  order_token = token;
}

-- A response of cancelOrder about an order that it found.
abbrev pub cancel_response : ℕ → ℕ → ℕ → MeOrder → ResponseType → ℕ → ℕ → MeClientResponse
cancel_response ticker_id client_id client_order_id o status execution_price left = record {
  client_id = client_id;
  client_order_id = client_order_id;
  market_order_id = o.market_order_id;
  price = o.price;
  execution_price = execution_price;
  match_id = order_id_invalid;
  ticker_id = ticker_id;
  qty = o.initial_quantity;
  executed_qty = 0;
  leaves_qty = left;
  side = o.side;
  order_type = o.order_type;
  status = status;
  order_token = o.order_token;
}

abbrev pub canceled_qty : ℕ → MeOrder → ℕ
canceled_qty qty o = if qty == 0 then o.remaining_quantity else qty

-- cancelOrder from the order on.
unfoldable pub cancel_found : ℕ → ℕ → ℕ → ℕ → MeOrder → ℕ → MeOrderBook → Outcome
cancel_found ticker_id client_id client_order_id qty o nmid b =
    if ltb o.remaining_quantity (canceled_qty qty o)
    then record {
      book = b;
      next_match_id = nmid;
      events =
          response (
            cancel_response ticker_id client_id client_order_id o ResponseType.cancel_rejected
              price_invalid o.remaining_quantity)
          ∷ [];
    }
    else record {
      book =
          let left : ℕ = o.remaining_quantity - canceled_qty qty o in
          if left == 0 then remove o (set_remaining o left b) else set_remaining o left b;
      next_match_id = nmid;
      events =
          update (cancel_update ticker_id o.market_order_id o.side o.price (canceled_qty qty o))
          ∷ response (
              cancel_response ticker_id client_id client_order_id o ResponseType.canceled o.price
                (canceled_qty qty o))
          ∷ [];
    }

abbrev pub reject : MeClientResponse → ℕ → MeOrderBook → Outcome
reject r nmid b = record { book = b; next_match_id = nmid; events = response r ∷ [] }

unfoldable pub cancel_order : ℕ → ℕ → ℕ → ℕ → OrderToken → ℕ → MeOrderBook → Option Outcome
unfolding cancel_found deref
cancel_order ticker_id client_id client_order_id qty token nmid b =
    elim (b.orders client_id client_order_id) [
      | none ↦ some (reject (not_found ticker_id client_id client_order_id token) nmid b)
      | some a ↦
          deref a b >>= λ o. some (cancel_found ticker_id client_id client_order_id qty o nmid b)
    ]

-- What follows the match in replaceOrder.
unfoldable pub rest_or_kill_replaced : ℕ → Incoming → Matching → Outcome
rest_or_kill_replaced address i m =
    if m.remaining == 0
    then record { book = m.book; next_match_id = m.next_match_id; events = m.events }
    else elim i.order_type [
      | good_till_cancel ↦ record {
        book = insert address i m.remaining m.book;
        next_match_id = m.next_match_id;
        events = m.events;
      }
      | fill_and_kill ↦ record {
        book = m.book;
        next_match_id = m.next_match_id;
        events =
            m.events
            ++ response
                (own_response i ResponseType.canceled 0 i.price m.remaining order_id_invalid)
              ∷ update (cancel_update i.ticker_id i.market_order_id i.side i.price m.remaining)
              ∷ [];
      }
    ]

-- All that replaceOrder does after the match, and its first pushes.
abbrev pub replace_outcome : ℕ → Incoming → MeOrder → Matching → Outcome
replace_outcome address i old m =
    prepend
      (response (own_response i ResponseType.modified 0 i.price i.initial_quantity order_id_invalid)
        ∷ update (modify_update i old.market_order_id)
        ∷ [])
      (rest_or_kill_replaced address i m)

-- replaceOrder from the old order on.
unfoldable pub replace_found : ℕ → Incoming → MeOrder → ℕ → MeOrderBook → Option Outcome
replace_found address i old nmid b =
    match_order i nmid (remove old (bump b)) >>= λ m. some (replace_outcome address i old m)

unfoldable pub replace_order :
    ℕ → ℕ → ℕ → ℕ → ℕ → OrderType → ℕ → ℕ → OrderToken → ℕ → MeOrderBook → Option Outcome
unfolding replace_found deref
replace_order address ticker_id client_id client_order_id new_id order_type price qty token nmid b =
    elim (b.orders client_id client_order_id) [
      | none ↦ some (reject (not_found ticker_id client_id client_order_id token) nmid b)
      | some a ↦ elim ((new_id == 0) || (qty == 0)) [
        | true ↦ some (reject (not_found ticker_id client_id client_order_id token) nmid b)
        | false ↦ deref a b >>= λ old.
            replace_found address
              (incoming ticker_id client_id new_id order_type price qty old.side token b) old nmid b
      ]
    ]
