-- ===== src/Tests/Engines.antt =====
-- The engine over its requests.
use nano_exchange.Base.{
  ℕ, ◌≡◌, refl, sym, ◌∙◌, subst, true, inl, inr, none, some, List, ◌++◌, ◌==◌, ◌&&◌, Bool-cases,
  arith, get_elem?,
}
use nano_exchange.Types.{
  buy, sell, good_till_cancel, fill_and_kill, ClientRequestType, MeClientRequest, zero_token, Event,
  MeOrder,
}
use nano_exchange.Levels.{find_order, append_order}
use nano_exchange.MapBook.{MeOrderBook, match_order, match_loop, insert, new_book}
use nano_exchange.MapBook.Operations.{Outcome, add_order, cancel_order, replace_order, rest_or_kill}
use nano_exchange.MapBook.Index.{Fresh, book_orders, keys_eq}
use nano_exchange.MapBook.Soundness.{
  IsSound, new_book-IsSound, Fresh-FreshAdded, Fresh-FreshReplaced, add_order-IsSound,
  cancel_order-IsSound, replace_order-IsSound,
}
use nano_exchange.Engine.{MatchingEngine, new_engine, process_client_request}
use nano_exchange.Engine.Answers.{Answered}
use nano_exchange.Engine.Progress.{
  FreshAt, Fresh-FreshAt, PoolGives, Reachable, start, step, process-progress, Reachable-EngineOk,
  EngineOk,
}
use nano_exchange.Tests.Books.{order, index, book, book-IsValid}

-- Where the index of the book points.
index-points :
    (c k a : ℕ)
    → index c k ≡ some a
    → (o : MeOrder) × (find_order a (book_orders book) ≡ some o)
      × (o.client_id ≡ c)
      × (o.client_order_id ≡ k)
unfolding find_order
index-points c k a h = elim (Bool-cases ((c == 1) && (k == 1))) [
  | inl e ↦ leads 1 1 1 (order 1 1 1 sell 101 5) refl refl refl e (rw e at h)
  | inr e ↦ elim (Bool-cases ((c == 2) && (k == 2))) [
    | inl f ↦ leads 2 2 2 (order 2 2 2 sell 101 5) refl refl refl f (rw (e, f) at h)
    | inr f ↦ elim (Bool-cases ((c == 1) && (k == 3))) [
      | inl g ↦ leads 1 3 3 (order 3 1 3 sell 103 5) refl refl refl g (rw (e, f, g) at h)
      | inr g ↦ elim (Bool-cases ((c == 3) && (k == 4))) [
        | inl x ↦ leads 3 4 4 (order 4 3 4 buy 99 5) refl refl refl x (rw (e, f, g, x) at h)
        | inr x ↦ let y : none ≡ some a = rw (e, f, g, x) at h in cc
      ]
    ]
  ]
]
  where
    leads :
        (c' k' a' : ℕ) (o : MeOrder)
        → find_order a' (book_orders book) ≡ some o
        → o.client_id ≡ c'
        → o.client_order_id ≡ k'
        → ((c == c') && (k == k')) ≡ true
        → some a' ≡ some a
        → (o : MeOrder) × (find_order a (book_orders book) ≡ some o)
          × (o.client_id ≡ c)
          × (o.client_order_id ≡ k)
    leads c' k' a' o found kc kk e g =
        let (c_eq, k_eq) = keys_eq c k c' k' e in
        let a_eq : a' ≡ a = cc in (o, rw (← a_eq) found, kc ∙ sym c_eq, kk ∙ sym k_eq)

pub book-IsSound : IsSound book
book-IsSound = record {
  valid = book-IsValid;
  indexed = record {
    distinct = (
      (λ e. ground (arith, e), (λ e. ground (arith, e), (λ e. ground (arith, e), tt))),
      (
        (λ e. ground (arith, e), (λ e. ground (arith, e), tt)),
        ((λ e. ground (arith, e), tt), (tt, tt)),
      ),
    );
    points = index-points;
  };
}

pub book-Fresh : Fresh 6 book
book-Fresh = (
  λ e. ground (arith, e),
  (λ e. ground (arith, e), (λ e. ground (arith, e), (λ e. ground (arith, e), tt))),
)

add_order-IsSound_example :
    (r : Outcome) × (add_order 6 0 9 5 good_till_cancel 102 12 buy zero_token 1 book ≡ some r)
    × IsSound r.book
add_order-IsSound_example =
    add_order-IsSound 6 0 9 5 good_till_cancel 102 12 buy zero_token 1 book book-IsSound (
      Fresh-FreshAdded 6 0 9 5 good_till_cancel 102 12 buy zero_token 1 book book-IsSound
        book-Fresh)

cancel_order-IsSound_example :
    (r : Outcome) × (cancel_order 0 2 2 3 zero_token 1 book ≡ some r) × IsSound r.book
cancel_order-IsSound_example = cancel_order-IsSound 0 2 2 3 zero_token 1 book book-IsSound

replace_order-IsSound_example :
    (r : Outcome) × (replace_order 6 0 2 2 7 fill_and_kill 98 3 zero_token 1 book ≡ some r)
    × IsSound r.book
replace_order-IsSound_example =
    replace_order-IsSound 6 0 2 2 7 fill_and_kill 98 3 zero_token 1 book book-IsSound
      (Fresh-FreshReplaced 6 0 2 2 7 fill_and_kill 98 3 zero_token 1 book book-IsSound book-Fresh)

-- A client enters an order, and cancels it in part.
abbrev enter : MeClientRequest
enter = record {
  client_id = 2;
  client_order_id = 2;
  new_client_order_id = 0;
  price = 101;
  ticker_id = 1;
  qty = 5;
  action = ClientRequestType.new;
  order_type = good_till_cancel;
  side = sell;
  order_token = zero_token;
}

abbrev cancel : MeClientRequest
cancel = record enter { action = ClientRequestType.cancel; qty = 3 }

abbrev entered : MatchingEngine
entered = elim (process_client_request 1 enter (new_engine 2)) [ none ↦ new_engine 0 | some e ↦ e ]

enter_runs : process_client_request 1 enter (new_engine 2) ≡ some entered
unfolding process_client_request add_order match_order match_loop rest_or_kill insert append_order
enter_runs = refl

entered-Reachable : Reachable 2 entered
entered-Reachable =
    step 1 enter start (omega arith)
      (λ b h.
        let f : new_book 1 ≡ b = cc in
        subst (FreshAt enter.action 1 enter 1) f
          (Fresh-FreshAt ClientRequestType.new 1 enter 1 (new_book 1) (new_book-IsSound 1) tt))
      enter_runs

abbrev entered_book : MeOrderBook
entered_book = elim (get_elem? entered.books 1) [ none ↦ new_book 0 | some b ↦ b ]

entered-PoolGives : PoolGives 2 cancel entered
unfolding process_client_request add_order match_order match_loop rest_or_kill insert append_order
entered-PoolGives b h = tt

process-progress_example :
    (e' : MatchingEngine) × (new : List Event) × (process_client_request 2 cancel entered ≡ some e')
    × Reachable 2 e'
    × (e'.events ≡ entered.events ++ new)
    × Answered 2 new
process-progress_example =
    process-progress 2 2 cancel entered entered-Reachable (omega arith) entered-PoolGives

Reachable-EngineOk_example : EngineOk 2 entered
Reachable-EngineOk_example = Reachable-EngineOk 2 entered entered-Reachable
