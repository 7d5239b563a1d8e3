-- ===== src/Tests/Exchanges.antt =====
-- A run of the exchange: main starts the threads, a client's order goes through all of them.
use nano_exchange.Base.{
  ℕ, ◌+◌, ◌^◌, ◌<◌, ◌≡◌, refl, length, subst, true, Option, none, some, List, [], ◌∷◌, arith,
  get_elem?,
}
use nano_exchange.Types.{MeClientRequest}
use nano_exchange.Levels.{append_order}
use nano_exchange.MapBook.{MeOrderBook, new_book, match_order, match_loop, insert}
use nano_exchange.MapBook.Operations.{add_order, rest_or_kill}
use nano_exchange.MapBook.Index.{Fresh}
use nano_exchange.MapBook.Soundness.{IsSound, new_book-IsSound}
use nano_exchange.Engine.Progress.{Fresh-FreshAt}
use nano_exchange.Engine.{process_client_request}
use nano_exchange.Gateway.Fifo.{
  new_fifo, retain_request, add_to_pending, publish_pending_orders, push_pending, grow_pending,
  add_or_grow,
}
use nano_exchange.Gateway.Tokens.{new_manager, register_new_token}
use nano_exchange.Gateway.Server.{
  frame, on_recv, on_recv_finished, handle_message, retain_decoded, register_client,
  drain_responses,
}
use nano_exchange.Gateway.Rounds.{received, finished, gateway_round}
use nano_exchange.Protocol.Ouch.{decode_ouch, blank_request}
use nano_exchange.Protocol.Itch.{encode}
use nano_exchange.Market.Shadow.{Orders, apply_to_book, put}
use nano_exchange.Market.Replay.{drain_one}
use nano_exchange.Market.Publisher.{publish_one}
use nano_exchange.Market.Mirror.Additions.{MirrorsBook}
use nano_exchange.Exchange.{
  Library, Exchange, new_exchange, Turn, gateway_runs, engine_runs, publisher_runs, streamer_drains,
  main_calls_next, take_turn, take_turns, main_takes, gateway_turn, engine_takes, publisher_takes,
  streamer_takes,
}
use nano_exchange.Exchange.Setup.{ℤ, pos, Options, read_options}
use nano_exchange.Exchange.Consistency.{Admissible, shadows, IsOrderly}
use nano_exchange.Exchange.Schedules.{Reachable, begin, turn, Reachable-mirrors}
use nano_exchange.Exchange.Progress.{catching_up, catches_up}
use nano_exchange.Tests.Servers.{wire, accepting}

abbrev library : Library
library = record { ouch = wire; itch = λ m. []; sort = λ rs. rs; load = λ bytes. 0 }

-- The exchange after a turn that it can take.
abbrev after : Turn → Exchange → Exchange
after t x = elim (take_turn library t x) [ none ↦ x | some y ↦ y ]

abbrev started : Exchange
unfolding take_turn main_takes
started =
    after main_calls_next
      (after main_calls_next (after main_calls_next (after main_calls_next (new_exchange 1 4 10))))

started-Reachable : Reachable library 1 4 10 started
unfolding take_turn main_takes
started-Reachable =
    turn main_calls_next
      (turn main_calls_next (turn main_calls_next (turn main_calls_next begin tt refl) tt refl) tt
        refl)
      tt refl

-- A client enters a buy order for 5 at 100.
abbrev enters : Turn
enters =
    gateway_runs (λ k. k) accepting (λ k. true)
      (received 4 9 (b'O' ∷ 7 ∷ []) ∷ finished (λ k. true) ∷ [])

abbrev entered : Exchange
unfolding take_turn gateway_turn gateway_round on_recv on_recv_finished frame handle_message
    retain_decoded register_client drain_responses decode_ouch register_new_token new_manager
    retain_request add_to_pending publish_pending_orders push_pending grow_pending add_or_grow
    new_fifo started
entered = after enters started

entered-Reachable : Reachable library 1 4 10 entered
unfolding take_turn gateway_turn gateway_round on_recv on_recv_finished frame handle_message
    retain_decoded register_client drain_responses decode_ouch register_new_token new_manager
    retain_request add_to_pending publish_pending_orders push_pending grow_pending add_or_grow
    new_fifo started
entered-Reachable = turn enters started-Reachable tt refl

-- The engine takes the order, at the address 1.
abbrev matched : Exchange
unfolding take_turn gateway_turn gateway_round on_recv on_recv_finished frame handle_message
    retain_decoded register_client drain_responses decode_ouch register_new_token new_manager
    retain_request add_to_pending publish_pending_orders push_pending grow_pending add_or_grow
    new_fifo engine_takes process_client_request add_order match_order match_loop rest_or_kill
    insert append_order started entered
matched = after (engine_runs 1) entered

in_new_book : (b : MeOrderBook) → get_elem? entered.engine.books 0 ≡ some b → new_book 0 ≡ b
unfolding take_turn gateway_turn gateway_round on_recv on_recv_finished frame handle_message
    retain_decoded register_client drain_responses decode_ouch register_new_token new_manager
    retain_request add_to_pending publish_pending_orders push_pending grow_pending add_or_grow
    new_fifo engine_takes process_client_request add_order match_order match_loop rest_or_kill
    insert append_order started entered
in_new_book b h = let f : some (new_book 0) ≡ some b = h in cc

abbrev entered_request : MeClientRequest
unfolding take_turn gateway_turn gateway_round on_recv on_recv_finished frame handle_message
    retain_decoded register_client drain_responses decode_ouch register_new_token new_manager
    retain_request add_to_pending publish_pending_orders push_pending grow_pending add_or_grow
    new_fifo started entered
entered_request = elim entered.request_q [ [] ↦ blank_request 0 | r ∷ rs ↦ r ]

entered-IsOrderly : IsOrderly 1 1 entered_request entered
unfolding take_turn gateway_turn gateway_round on_recv on_recv_finished frame handle_message
    retain_decoded register_client drain_responses decode_ouch register_new_token new_manager
    retain_request add_to_pending publish_pending_orders push_pending grow_pending add_or_grow
    new_fifo started entered entered_request
entered-IsOrderly = record {
  listed = omega arith;
  fresh = λ b h.
      Fresh-FreshAt entered_request.action 1 entered_request entered.engine.next_match_id b
        (subst IsSound (in_new_book b h) (new_book-IsSound 0))
        (subst (Fresh 1) (in_new_book b h) tt);
  numbered = λ b h.
      subst (λ (x : MeOrderBook). x.next_market_order_id + 1 < 2 ^ 64) (in_new_book b h)
        (omega arith);
  told = λ b h. tt;
}

engine_may_run : Admissible 1 (engine_runs 1) entered
unfolding take_turn gateway_turn gateway_round on_recv on_recv_finished frame handle_message
    retain_decoded register_client drain_responses decode_ouch register_new_token new_manager
    retain_request add_to_pending publish_pending_orders push_pending grow_pending add_or_grow
    new_fifo engine_takes process_client_request add_order match_order match_loop rest_or_kill
    insert append_order started entered matched entered_request
engine_may_run r rs h =
    let f : entered_request ≡ r = cc in subst (λ x. IsOrderly 1 1 x entered) f entered-IsOrderly

matched-Reachable : Reachable library 1 4 10 matched
unfolding take_turn gateway_turn gateway_round on_recv on_recv_finished frame handle_message
    retain_decoded register_client drain_responses decode_ouch register_new_token new_manager
    retain_request add_to_pending publish_pending_orders push_pending grow_pending add_or_grow
    new_fifo engine_takes process_client_request add_order match_order match_loop rest_or_kill
    insert append_order started entered matched entered_request
matched-Reachable = turn (engine_runs 1) entered-Reachable engine_may_run refl

catches_up_example :
    (x' : Exchange) × (take_turns library (catching_up 7 matched) matched ≡ some x')
    × (x'.engine ≡ matched.engine)
    × (x'.market_update_q ≡ [])
    × (x'.streamer_q ≡ [])
    × ((t : ℕ) (b : MeOrderBook) (m : Orders)
        → get_elem? x'.engine.books t ≡ some b
        → get_elem? (shadows x') t ≡ some m
        → MirrorsBook b m)
unfolding take_turn gateway_turn gateway_round on_recv on_recv_finished frame handle_message
    retain_decoded register_client drain_responses decode_ouch register_new_token new_manager
    retain_request add_to_pending publish_pending_orders push_pending grow_pending add_or_grow
    new_fifo engine_takes process_client_request add_order match_order match_loop rest_or_kill
    insert append_order started entered matched entered_request
catches_up_example = catches_up library 1 4 10 7 matched matched-Reachable refl refl

two_turns : length (catching_up 7 matched) ≡ 2
unfolding take_turn gateway_turn gateway_round on_recv on_recv_finished frame handle_message
    retain_decoded register_client drain_responses decode_ouch register_new_token new_manager
    retain_request add_to_pending publish_pending_orders push_pending grow_pending add_or_grow
    new_fifo engine_takes process_client_request add_order match_order match_loop rest_or_kill
    insert append_order started entered matched entered_request
two_turns = refl

-- The publisher announces it, and the streamer takes it into the shadow book.
abbrev published : Exchange
unfolding take_turn gateway_turn gateway_round on_recv on_recv_finished frame handle_message
    retain_decoded register_client drain_responses decode_ouch register_new_token new_manager
    retain_request add_to_pending publish_pending_orders push_pending grow_pending add_or_grow
    new_fifo engine_takes process_client_request add_order match_order match_loop rest_or_kill
    insert append_order publisher_takes publish_one encode started entered matched
published = after (publisher_runs 7) matched

abbrev shown : Exchange
unfolding take_turn gateway_turn gateway_round on_recv on_recv_finished frame handle_message
    retain_decoded register_client drain_responses decode_ouch register_new_token new_manager
    retain_request add_to_pending publish_pending_orders push_pending grow_pending add_or_grow
    new_fifo engine_takes process_client_request add_order match_order match_loop rest_or_kill
    insert append_order publisher_takes publish_one encode streamer_takes drain_one apply_to_book
    put started entered matched published
shown = after streamer_drains published

shown-Reachable : Reachable library 1 4 10 shown
unfolding take_turn gateway_turn gateway_round on_recv on_recv_finished frame handle_message
    retain_decoded register_client drain_responses decode_ouch register_new_token new_manager
    retain_request add_to_pending publish_pending_orders push_pending grow_pending add_or_grow
    new_fifo engine_takes process_client_request add_order match_order match_loop rest_or_kill
    insert append_order publisher_takes publish_one encode streamer_takes drain_one apply_to_book
    put started entered matched published shown
shown-Reachable = turn streamer_drains (turn (publisher_runs 7) matched-Reachable tt refl) tt refl

abbrev shown_book : MeOrderBook
unfolding take_turn gateway_turn gateway_round on_recv on_recv_finished frame handle_message
    retain_decoded register_client drain_responses decode_ouch register_new_token new_manager
    retain_request add_to_pending publish_pending_orders push_pending grow_pending add_or_grow
    new_fifo engine_takes process_client_request add_order match_order match_loop rest_or_kill
    insert append_order publisher_takes publish_one encode streamer_takes drain_one apply_to_book
    put started entered matched published shown
shown_book = elim (get_elem? shown.engine.books 0) [ none ↦ new_book 0 | some b ↦ b ]

abbrev shown_map : Orders
unfolding take_turn gateway_turn gateway_round on_recv on_recv_finished frame handle_message
    retain_decoded register_client drain_responses decode_ouch register_new_token new_manager
    retain_request add_to_pending publish_pending_orders push_pending grow_pending add_or_grow
    new_fifo engine_takes process_client_request add_order match_order match_loop rest_or_kill
    insert append_order publisher_takes publish_one encode streamer_takes drain_one apply_to_book
    put started entered matched published shown
shown_map = elim (get_elem? (shadows shown) 0) [ none ↦ [] | some m ↦ m ]

one_order : length shown_map ≡ 1
unfolding take_turn gateway_turn gateway_round on_recv on_recv_finished frame handle_message
    retain_decoded register_client drain_responses decode_ouch register_new_token new_manager
    retain_request add_to_pending publish_pending_orders push_pending grow_pending add_or_grow
    new_fifo engine_takes process_client_request add_order match_order match_loop rest_or_kill
    insert append_order publisher_takes publish_one encode streamer_takes drain_one apply_to_book
    put started entered matched published shown shown_map
one_order = refl

Reachable-mirrors_example : MirrorsBook shown_book shown_map
unfolding take_turn gateway_turn gateway_round on_recv on_recv_finished frame handle_message
    retain_decoded register_client drain_responses decode_ouch register_new_token new_manager
    retain_request add_to_pending publish_pending_orders push_pending grow_pending add_or_grow
    new_fifo engine_takes process_client_request add_order match_order match_loop rest_or_kill
    insert append_order publisher_takes publish_one encode streamer_takes drain_one apply_to_book
    put started entered matched published shown shown_book shown_map
Reachable-mirrors_example =
    Reachable-mirrors library 1 4 10 shown shown-Reachable refl refl 0 shown_book shown_map refl
      refl

-- The command line, on texts that are numbers.
abbrev argv : List ℕ
argv = 0 ∷ 1 ∷ 10000 ∷ 2 ∷ 20001 ∷ 20002 ∷ 3 ∷ 5 ∷ []

abbrev cores : Option (Options ℕ) → List ℤ
cores none = []
cores (some o) = o.core_me ∷ o.core_gateway ∷ []

reads_cores : cores (read_options pos argv) ≡ pos 5 ∷ pos 2 ∷ []
unfolding read_options
reads_cores = refl

too_few : cores (read_options pos (0 ∷ 1 ∷ [])) ≡ []
unfolding read_options
too_few = refl
