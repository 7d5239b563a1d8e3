-- ===== src/Lib.antt =====
-- NanoExchange: a single-venue exchange. Clients send OUCH messages over TCP; the gateway decodes
-- them, sorts them by arrival time and queues them for the matching engine, which keeps one book
-- for each ticker; responses go back to the clients, market updates go to the publisher, which
-- numbers them, sends them as ITCH and hands them to the snapshot streamer for recovery.
--
-- The files and the code:
-- - Base, Base/Booleans, Base/Lists: library names, Boolean tests, lists on the native numbers.
-- - Types: src/types.h. The structs are records without their links next_ and prev_: an order's
--   place is its place in the list of its level, its identity is a field `address`. The engine's
--   two output queues are one list of events, in the order of the pushes.
-- - Levels: the price levels of one side of src/engine/order_book/order_book_map.h, a std::map as
--   the list of its entries in its order. Levels/Sorted, Insert, Remove, Find and Splice
--   hold the lemmas.
-- - MapBook: MEOrderBook of src/engine/order_book/order_book_map.cpp: insert, remove and match.
--   MapBook/Operations: addOrder, cancelOrder, replaceOrder. MapBook/Sides, Fills, Loop and Valid
--   hold the lemmas (what one fill changes, how the loops run, what keeps a book valid);
--   MapBook/Index and its child the lemmas on the index; MapBook/Priority, Invariant, Conservation
--   and Soundness the properties.
-- - VectorBook: MEOrderBook of src/engine/order_book/order_book_vector.h and order_book_vector.cpp:
--   insert, remove and match over the array of levels. VectorBook/Links: insertPricelevel and
--   removePriceLevel, the links of the active levels, with the lemmas on them in its children.
--   VectorBook/Operations: addOrder, cancelOrder, replaceOrder. Slots, Removal, Sides, Refines,
--   Matches, Resting and Loops: how it represents the book over std::map, write by write and loop
--   by loop; Agreement, Cancels and Replaces: the public operations; Lockstep: the engine's switch
--   over it. The two books share what they build alike (the arguments of match, the responses).
-- - Engine: src/engine/matching_engine.h and matching_engine.cpp, the dispatch and the run over the
--   requests of the input queue. Engine/Isolation: what a request does not touch. Engine/Answers and
--   Progress: every request is answered, in every state that the engine reaches.
-- - Gateway/Tokens: src/network/gateway/token_manager.h. Gateway/Fifo:
--   src/network/gateway/fifo_process.h, and the retention of a decoded request in onRecv.
--   Gateway/Server: the handlers of src/network/gateway/order_server.h. Gateway/Rounds: the
--   rounds of its run loop, over the callbacks that the socket library makes. Gateway/Isolation,
--   Sequencing, Framing, Routing and Rounds/Soundness: the properties. Rounds/Totality: the rounds
--   return.
-- - Protocol/Itch: src/network/protocol/itch_encoder.h. Protocol/Ouch:
--   src/network/protocol/ouch_processor.h. Protocol/Ownership: whose orders a message reaches.
--   Protocol/Echo: what a client is told of an order that it enters. Protocol/Bounds: the ids as
--   indices of the vector of tokens.
-- - Market/Shadow, Market/Replay: the shadow book, the replay ring, the drain of the queue and
--   serveReplay of src/network/market/snapshot_stream.h. Market/Publisher: the loop of
--   src/network/market/marketdata_publisher.h. Market/Snapshot: bakeSnapshot and serveSnapshot.
--   Market/Sockets: sendAll and recvExact; Market/Requests: handleClient, serveRequests and the
--   rounds of run; Market/Replies: what the clients are answered.
--   Market/Window: what the ring holds; Market/Recovery: from the publisher to a client that
--   recovers; Market/Source: what the engine gives the publisher. Market/Mirror: the shadow book
--   beside the book whose updates it follows, update by update (Updates, Trades), request by
--   request (Additions, Removals, Agreement).
-- - Exchange: src/main.cpp, the threads with the queues between them, and their turns in any order.
--   Exchange/Setup: the sizes and the command line. Exchange/Lifecycle: start and stop of the parts,
--   and the order in which main calls them. Exchange/Pending: the updates on their way.
--   Exchange/Consistency: what every turn keeps between the books and the shadow book, turn by turn
--   in Requests and Feed; Exchange/Schedules: every order of turns; Exchange/Progress: the turns
--   after which no update is on its way.
-- - Tests: runs and witnesses at concrete inputs.
--
-- A function returns an Option where the code may fail to terminate, follow a pointer to nothing or
-- index out of range; `none` stands for that. The two loops of match take fuel, two more than the
-- orders on the opposite side, for each: every round but the last fills an order or ends the
-- quantity. The framing loop of onRecv takes one more than the bytes of the buffer, of which every
-- round takes one at least. The walks over the active levels of the book over vectors take as many
-- steps as there are levels in the array, and no level is passed twice. Numbers are natural;
-- wrap-around and narrowing are written out where the code computes. The subtractions of quantities
-- do not wrap, by their guards.
--
-- Parameters: the pool gives the address of a new order, which is not in use when the order is
-- inserted, and may be that of an order that the same call has freed; std::sort is a function that
-- permutes and orders; the engine's queue says which pushes it accepts; the clock gives the time;
-- the kernel's send and recv say how many bytes they move. The wire structs are those fields of
-- QuantLink's structs that the code reads or writes, as values.
--
-- Not modelled: of src/main.cpp the crash handler, the signals, the usage text and the print of the
-- thread placement; the set-up of sockets, src/instrumentation/perf_utils.h, QuantLink, threads and
-- logging. A queue of the exchange has no capacity: that pushBlocking waits for room in a full
-- queue is not modelled, and what is stated of the exchange is of runs in which it does not wait.
pub mod Base
pub mod Types
pub mod Levels
pub mod MapBook
pub mod VectorBook
pub mod Engine
pub mod Gateway
pub mod Market
pub mod Protocol
pub mod Exchange
mod Tests
