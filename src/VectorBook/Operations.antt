-- ===== src/VectorBook/Operations.antt =====
-- addOrder, cancelOrder and replaceOrder of src/engine/order_book/order_book_vector.cpp.
use nano_exchange.Base.{
  ℕ, ◌-◌, true, false, ◌||◌, Option, none, some, List, [], ◌∷◌, ◌++◌, ltb, ◌==◌, if◌then◌else◌,
  ◌>>=◌, inc64,
}
use nano_exchange.Types.{
  Side, OrderType, good_till_cancel, fill_and_kill, ResponseType, OrderToken, MeOrder,
  MeClientResponse, Event, response, update, price_invalid, order_id_invalid, zero_token,
}
use nano_exchange.Levels.{find_order}
use nano_exchange.MapBook.{Incoming, own_response}
use nano_exchange.MapBook.Operations.{
  add_update, cancel_update, modify_update, not_found, cancel_response, canceled_qty,
}
use nano_exchange.VectorBook.{
  MeOrderBook, Matching, insert, remove, set_remaining, match_order, resting,
}

pub record Outcome : Type 0 where
  pub book : MeOrderBook
  pub next_match_id : ℕ
  pub events : List Event

-- What the pointer points to.
unfoldable pub deref : ℕ → MeOrderBook → Option MeOrder
deref a b = find_order a (resting b.bids ++ resting b.asks)

-- What follows the match in addOrder.
unfoldable pub rest_or_kill : ℕ → Incoming → Matching → Option Outcome
rest_or_kill address i m = elim (ltb 0 m.remaining) [
  | true ↦ elim i.order_type [
    | good_till_cancel ↦ insert address i m.remaining m.book >>= λ b. some (record {
      book = b;
      next_match_id = m.next_match_id;
      events = m.events ++ update (add_update i m.remaining) ∷ [];
    })
    | fill_and_kill ↦ some (record {
      book = m.book;
      next_match_id = m.next_match_id;
      events =
          m.events
          ++ response (own_response i ResponseType.canceled 0 i.price m.remaining order_id_invalid)
            ∷ [];
    })
  ]
  | false ↦ some (record { book = m.book; next_match_id = m.next_match_id; events = m.events })
]

abbrev pub prepend : List Event → Outcome → Outcome
prepend es r = record r { events = es ++ r.events }

-- The market order id is the next of the book.
abbrev pub incoming : ℕ → ℕ → ℕ → OrderType → ℕ → ℕ → Side → OrderToken → MeOrderBook → Incoming
incoming ticker_id client_id client_order_id order_type price qty side token b = record {
  ticker_id = ticker_id;
  client_id = client_id;
  client_order_id = client_order_id;
  market_order_id = b.next_market_order_id;
  order_type = order_type;
  price = price;
  initial_quantity = qty;
  side = side;
  order_token = token;
}

abbrev pub bump : MeOrderBook → MeOrderBook
bump b = record b { next_market_order_id = inc64 b.next_market_order_id }

-- addOrder over its arguments and the market order id that it draws.
unfoldable pub add_incoming : ℕ → Incoming → ℕ → MeOrderBook → Option Outcome
add_incoming address i next_match_id b = match_order i next_match_id (bump b) >>= λ m.
    rest_or_kill address i m >>= λ r. some (
      prepend
        (response
            (own_response i ResponseType.accepted 0 i.price i.initial_quantity order_id_invalid)
          ∷ [])
        r)

unfoldable pub add_order :
    ℕ → ℕ → ℕ → ℕ → OrderType → ℕ → ℕ → Side → OrderToken → ℕ → MeOrderBook → Option Outcome
unfolding add_incoming
add_order address ticker_id client_id client_order_id order_type price qty side token nmid b =
    add_incoming address
      (incoming ticker_id client_id client_order_id order_type price qty side token b) nmid b

-- The overload without a token.
unfoldable pub add_untagged_order :
    ℕ → ℕ → ℕ → ℕ → OrderType → ℕ → ℕ → Side → ℕ → MeOrderBook → Option Outcome
unfolding add_order
add_untagged_order address ticker_id client_id client_order_id order_type price qty side nmid b =
    add_order address ticker_id client_id client_order_id order_type price qty side zero_token nmid
      b

-- cancelOrder from the order on. The response tells what is left of the order.
unfoldable pub cancel_found : ℕ → ℕ → ℕ → ℕ → MeOrder → ℕ → MeOrderBook → Outcome
cancel_found ticker_id client_id client_order_id qty o nmid b =
    if ltb o.remaining_quantity (canceled_qty qty o)
    then record {
      book = b;
      next_match_id = nmid;
      events =
          response (
            cancel_response ticker_id client_id client_order_id o ResponseType.cancel_rejected
              price_invalid o.remaining_quantity)
          ∷ [];
    }
    else record {
      book =
          let left : ℕ = o.remaining_quantity - canceled_qty qty o in
          if left == 0 then remove o (set_remaining o left b) else set_remaining o left b;
      next_match_id = nmid;
      events =
          update (cancel_update ticker_id o.market_order_id o.side o.price (canceled_qty qty o))
          ∷ response (
              cancel_response ticker_id client_id client_order_id o ResponseType.canceled o.price
                (o.remaining_quantity - canceled_qty qty o))
          ∷ [];
    }

abbrev pub reject : MeClientResponse → ℕ → MeOrderBook → Outcome
reject r nmid b = record { book = b; next_match_id = nmid; events = response r ∷ [] }

unfoldable pub cancel_order : ℕ → ℕ → ℕ → ℕ → OrderToken → ℕ → MeOrderBook → Option Outcome
unfolding cancel_found deref
cancel_order ticker_id client_id client_order_id qty token nmid b =
    elim (b.orders client_id client_order_id) [
      | none ↦ some (reject (not_found ticker_id client_id client_order_id token) nmid b)
      | some a ↦
          deref a b >>= λ o. some (cancel_found ticker_id client_id client_order_id qty o nmid b)
    ]

-- The overload that cancels all that is left.
unfoldable pub cancel_whole_order : ℕ → ℕ → ℕ → ℕ → MeOrderBook → Option Outcome
unfolding cancel_order
cancel_whole_order ticker_id client_id client_order_id nmid b =
    cancel_order ticker_id client_id client_order_id 0 zero_token nmid b

-- What follows the match in replaceOrder: nothing is pushed.
unfoldable pub rest_replaced : ℕ → Incoming → Matching → Option Outcome
rest_replaced address i m = elim (ltb 0 m.remaining) [
  | true ↦ elim i.order_type [
    | good_till_cancel ↦ insert address i m.remaining m.book >>= λ b.
        some (record { book = b; next_match_id = m.next_match_id; events = m.events })
    | fill_and_kill ↦
        some (record { book = m.book; next_match_id = m.next_match_id; events = m.events })
  ]
  | false ↦ some (record { book = m.book; next_match_id = m.next_match_id; events = m.events })
]

-- replaceOrder from the old order on.
unfoldable pub replace_found : ℕ → Incoming → MeOrder → ℕ → MeOrderBook → Option Outcome
replace_found address i old nmid b = match_order i nmid (remove old (bump b)) >>= λ m.
    rest_replaced address i m >>= λ r. some (
      prepend
        (response
            (own_response i ResponseType.modified 0 i.price i.initial_quantity order_id_invalid)
          ∷ update (modify_update i old.market_order_id)
          ∷ [])
        r)

unfoldable pub replace_order :
    ℕ → ℕ → ℕ → ℕ → ℕ → OrderType → ℕ → ℕ → OrderToken → ℕ → MeOrderBook → Option Outcome
unfolding replace_found deref
replace_order address ticker_id client_id client_order_id new_id order_type price qty token nmid b =
    elim (b.orders client_id client_order_id) [
      | none ↦ some (reject (not_found ticker_id client_id client_order_id token) nmid b)
      | some a ↦ elim ((new_id == 0) || (qty == 0)) [
        | true ↦ some (reject (not_found ticker_id client_id client_order_id token) nmid b)
        | false ↦ deref a b >>= λ old.
            replace_found address
              (incoming ticker_id client_id new_id order_type price qty old.side token b) old nmid b
      ]
    ]
