-- ===== src/Tests/Servers.antt =====
-- The order server.
use nano_exchange.Base.{
  ℕ, ◌≡◌, ◌≢◌, refl, Bool, true, Option, none, some, List, [], ◌∷◌, ◌++◌, drop, arith,
  if◌then◌else◌, ◌==◌,
}
use nano_exchange.Types.{
  MeClientResponse, ResponseType, good_till_cancel, buy, zero_token, order_id_invalid,
}
use nano_exchange.Protocol.Ouch.{enter, decode_ouch, encode_ouch}
use nano_exchange.Gateway.Tokens.{new_manager, register_new_token}
use nano_exchange.Gateway.Fifo.{RecvClientRequest, new_fifo, retain_request, add_to_pending}
use nano_exchange.Gateway.Server.{
  Wire, OrderServer, frame, on_recv, on_disconnect, drain_responses, handle_message, retain_decoded,
}
use nano_exchange.Gateway.Framing.{on_recv-chunks}
use nano_exchange.Gateway.Routing.{
  IsRouted, on_recv-IsRouted, on_disconnect-IsRouted, drain_responses-routed, sent_to,
}

-- An enter order is its type byte and a token of one byte.
abbrev pub wire : Wire
wire = record {
  enter_order = b'O';
  cancel_order = b'X';
  replace_order = b'U';
  enter_size = 2;
  cancel_size = 2;
  replace_size = 3;
  read = λ bytes. enter (record {
    order_token = drop 1 bytes;
    buy_sell_indicator = b'B';
    shares = 5;
    stock = 0;
    price = 100;
    time_in_force = 1;
  });
}

-- Client 1 sits at the descriptor 4, client 2 at 5.
abbrev pub server : OrderServer
server = record {
  fifo = new_fifo 4;
  token_manager = new_manager 10;
  fd_to_client_id = λ fd. if fd == 4 then some 1 else if fd == 5 then some 2 else none;
  client_to_socket = λ c. if c == 1 then some 4 else if c == 2 then some 5 else none;
  next_client_id = 3;
  published = [];
  retained = 0;
}

abbrev keep : List RecvClientRequest → List RecvClientRequest
keep rs = rs

abbrev pub accepting : ℕ → ℕ → Bool
accepting n k = true

-- The bytes that a call leaves, and the requests that it has retained.
abbrev left : Option (List ℕ × OrderServer) → List ℕ × ℕ
left none = ([], 0)
left (some (rest, s)) = (rest, s.retained)

-- A byte of noise, a message, and the beginning of another.
frames_one :
    left (on_recv wire keep accepting 4 9 (0 ∷ b'O' ∷ 7 ∷ b'O' ∷ []) server) ≡ (b'O' ∷ [], 1)
unfolding on_recv frame handle_message retain_decoded decode_ouch register_new_token new_manager
    retain_request add_to_pending new_fifo
frames_one = refl

on_recv-chunks_example :
    (r : List ℕ × OrderServer) × (on_recv wire keep accepting 4 9 (0 ∷ b'O' ∷ []) server ≡ some r)
    × (on_recv wire keep accepting 4 9 (r.0 ++ 7 ∷ []) r.1
        ≡ on_recv wire keep accepting 4 9 (0 ∷ b'O' ∷ 7 ∷ []) server)
on_recv-chunks_example = on_recv-chunks wire keep accepting 4 9 (0 ∷ b'O' ∷ []) (7 ∷ []) server

pub server-IsRouted : IsRouted server
server-IsRouted = record { routed = λ fd c h. grind arith; owned = λ c fd h. grind arith }

on_recv-IsRouted_example :
    (r : List ℕ × OrderServer) × (on_recv wire keep accepting 6 9 (b'O' ∷ 7 ∷ []) server ≡ some r)
    × IsRouted r.1
on_recv-IsRouted_example =
    on_recv-IsRouted wire keep accepting 6 9 (b'O' ∷ 7 ∷ []) server (omega arith) server-IsRouted

on_disconnect-IsRouted_example :
    IsRouted (on_disconnect 4 server)
    × ((on_disconnect 4 server).fd_to_client_id 4 ≡ none)
    × ((c : ℕ) → (on_disconnect 4 server).client_to_socket c ≢ some 4)
on_disconnect-IsRouted_example = on_disconnect-IsRouted 4 server server-IsRouted

-- An acceptance for a client.
abbrev accepted : ℕ → MeClientResponse
accepted c = record {
  client_id = c;
  client_order_id = 1;
  market_order_id = 1;
  price = 100;
  execution_price = 100;
  match_id = order_id_invalid;
  ticker_id = 0;
  qty = 5;
  executed_qty = 0;
  leaves_qty = 5;
  side = buy;
  order_type = good_till_cancel;
  status = ResponseType.accepted;
  order_token = zero_token;
}

drain_responses-routed_example :
    sent_to 4 (drain_responses ((10, accepted 2) ∷ (11, accepted 1) ∷ (12, accepted 9) ∷ []) server)
    ≡ encode_ouch 11 (accepted 1) ∷ []
drain_responses-routed_example =
    drain_responses-routed 4 1 ((10, accepted 2) ∷ (11, accepted 1) ∷ (12, accepted 9) ∷ []) server
      server-IsRouted refl
