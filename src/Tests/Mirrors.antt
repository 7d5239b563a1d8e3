-- ===== src/Tests/Mirrors.antt =====
-- The shadow book beside the book, and an order told back.
use nano_exchange.Base.{ℕ, ◌≡◌, refl, inl, some, List, [], ◌∷◌, arith}
use nano_exchange.Types.{
  Side, buy, sell, ClientRequestType, MeClientRequest, MeClientResponse, UpdateType, MeMarketUpdate,
  order_id_invalid, zero_token, Event, response,
}
use nano_exchange.MapBook.Operations.{Outcome}
use nano_exchange.MapBook.Index.{book_orders}
use nano_exchange.Engine.{dispatch}
use nano_exchange.Market.Shadow.{Orders, find}
use nano_exchange.Market.Mirror.{follow, shown, as_known}
use nano_exchange.Market.Mirror.Additions.{MirrorsBook}
use nano_exchange.Market.Mirror.Agreement.{dispatch-Mirrors}
use nano_exchange.Gateway.Tokens.{new_manager, register_new_token}
use nano_exchange.Protocol.Ouch.{EnterOrder, enter, decode_ouch, blank_request, encode_ouch}
use nano_exchange.Protocol.Echo.{enter-accept, repeated}
use nano_exchange.Tests.Books.{book, book-IsValid}
use nano_exchange.Tests.Engines.{book-IsSound}

-- The ADD of a resting order.
abbrev pub told : ℕ → Side → ℕ → ℕ → MeMarketUpdate
told id side price qty = record {
  ticker_id = 0;
  market_order_id = id;
  update_type = UpdateType.add;
  side = side;
  price = price;
  qty = qty;
  new_order_id = order_id_invalid;
  match_id = order_id_invalid;
}

abbrev pub shadow : Orders
shadow =
    (4, told 4 buy 99 5)
    ∷ (1, told 1 sell 101 5)
    ∷ (2, told 2 sell 101 5)
    ∷ (3, told 3 sell 103 5)
    ∷ []

shadow-same : (j : ℕ) → as_known (find j shadow) ≡ shown j (book_orders book)
unfolding find shown
shadow-same j = ground arith

pub shadow-Mirrors : MirrorsBook book shadow
shadow-Mirrors = record {
  same = shadow-same;
  unique = (
    (λ e. ground (arith, e), (λ e. ground (arith, e), (λ e. ground (arith, e), tt))),
    (
      (λ e. ground (arith, e), (λ e. ground (arith, e), tt)),
      ((λ e. ground (arith, e), tt), (tt, tt)),
    ),
  );
  below = (omega arith, (omega arith, (omega arith, (omega arith, tt))));
}

-- A buy order for 12 at 102, which takes both asks at 101 and rests with 2.
abbrev pub buy_12 : MeClientRequest
buy_12 = record (blank_request 9) { client_order_id = 5; price = 102; qty = 12 }

dispatch-Mirrors_example :
    (o : Outcome) × (dispatch ClientRequestType.new 6 buy_12 1 book ≡ some o)
    × MirrorsBook o.book (follow o.events shadow)
dispatch-Mirrors_example =
    dispatch-Mirrors ClientRequestType.new 6 buy_12 1 book shadow book-IsSound (omega arith) tt
      shadow-Mirrors

abbrev enter_message : EnterOrder
enter_message = record {
  order_token = zero_token;
  buy_sell_indicator = b'B';
  shares = 12;
  stock = 0;
  price = 102;
  time_in_force = 99998;
}

abbrev decoded : MeClientRequest
decoded = record (blank_request 9) { client_order_id = 1; price = 102; qty = 12 }

decodes_enter : (decode_ouch (enter enter_message) 9 (new_manager 10)).0 ≡ some decoded
unfolding decode_ouch register_new_token new_manager
decodes_enter = refl

enter-accept_example :
    (o : Outcome) × (told : MeClientResponse) × (rest : List Event) × (dispatch
        ClientRequestType.new 6 decoded 1 book
      ≡ some o)
    × (o.events ≡ response told ∷ rest)
    × (told.client_id ≡ 9)
    × (encode_ouch 77 told ≡ repeated 77 5 enter_message)
enter-accept_example =
    enter-accept enter_message 9 (new_manager 10) decoded 6 1 77 book
      (record {
        shares_fit = omega arith;
        price_fits = omega arith;
        stock_fits = omega arith;
        side_known = inl refl;
      })
      decodes_enter book-IsValid
