-- ===== src/Lib.antt =====
-- Custom-HTS is a home trading system in Go. This library models the parts that carry its own logic: the
-- multiplexer that keeps subscriptions alive on reconnecting websockets, the core that turns ticks and
-- execution notices into orders, the shared subscriptions, breakers and tick ring of the data feeds, and the
-- adapter of the LS broker, which fans streams out to local subscribers over a pool of connections.
--
-- How the parts interact. A caller of the LS adapter takes a subscription from its client; the first of a
-- route has the realtime service acquire a connection slot for it, and the last gives it up. The slot
-- subscribes through the client of its multiplexer, which places a key on a websocket worker; the worker's
-- events come back to the run loop. Ticks and execution notices reach the engine, which updates the price
-- store, the order tracker and the balance manager, asks the strategy for signals, and sends orders to the
-- io worker; the worker's results come back to the engine as events.
--
-- Prelude: what the parts share. Prelude.Int has signed integers over the native numbers, with int64 as their
--   wrap-around; Prelude.Wrap the laws of that; Prelude.Float the finite float64 values and the operations
--   on them that the code uses; Prelude.Texts Go's strings as lists of code points; Prelude.Maps Go's maps as
--   association lists, whose order stands for the order of a `range`; the account that the engine
--   finds first is a choice of its own each time.
--
-- Mux: internal/core/pkg/wsrefact_v6.
--   Mux.Types: types.go and errors.go. A `*Subscription` is the number of its handle, a context is a number.
--   Mux.Keys, Mux.Placement, Mux.Slot, Mux.Commands and Mux.Loop: mux.go. A command of a caller or an event of
--   a worker is one step of `Run`; a worker that takes a command out of its mailbox is a step of its own between
--   two of these; a slot is one worker's record with the contexts; a ticker goroutine is a launched ticker whose
--   ticks are events with its epoch. A handler that waits for room in a mailbox waits until the worker has taken
--   enough, which is modelled as a mailbox that holds what is sent.
--   Mux.Config: `NewMux`. Mux.Client: client.go, whose calls hold the mutex and so are single steps.
--   Mux.IoWorker: the command loop of ioworker.go.
--   The other modules prove: Mux.Least the placement; Mux.Subscribing, Mux.Unsubscribing, Mux.Outcomes the
--   ends of a command; Mux.Consistency, Mux.Invariant the desired state; Mux.Replay the replay;
--   Mux.Lifecycle, Mux.Fatal the fatal shutdown; Mux.Heartbeat and Mux.Ticks the tickers; Mux.Resolution the results;
--   Mux.Connections the worker.
--
-- Trading: internal/core/{ordertracker, balancemgr, pricestore, strategy, engine, ioworker} with the types of
--   internal/core/exchange and internal/core/domain that they use.
--   Trading.Domain: the types. The event types that the core names in package domain are declared in no file
--   of the repository; the model has records of the fields that the core reads.
--   Trading.Orders: ordertracker/traker.go. Trading.Balances: balancemgr/manager.go. Trading.Prices:
--   pricestore/store.go. Trading.Strategy: strategy/theme.go. Trading.Engine: engine/engine.go and
--   ioworker/*.go; an event is one step of the select loop, and what is sent to the worker is a list.
--   A time is a number that is only stored, and the clock is an argument.
--
-- Feeds: internal/core/pkg/subscription (Feeds.Subscriptions, Feeds.Live),
--   internal/core/pkg/circuitbreaker (Feeds.Breaker, Feeds.Openings) and internal/core/pkg/ringbuffer
--   (Feeds.Ring, Feeds.Reading). The operations of the first hold a mutex and are single steps; those of the
--   second are sequences of atomic operations that interleave; a publication to the third is a claim, passes
--   of the gate, and a write.
--
-- Ls: internal/adapter/broker/ls.
--   Ls.Routes and Ls.Realtime: api/ws/transport.go. A call takes the registry's mutex twice, so it is two parts
--   that interleave with those of other goroutines. Ls.Conns: api/ws/registry.go and the normal form of the
--   limits in ws.go. Ls.Slots: api/ws/slot.go, whose callback and read loops take a step up to each release of
--   the slot's mutex and each event. Ls.Messages: api/ws/parser.go.
--   Ls.Fanout and Ls.Handles: client/subscription.go, ws.go and the dispatch loops of broker.go; the code for
--   trades, quotes and executions is one definition with the kind as an argument.
--   The other modules prove: Ls.Keys the keys of routes; Ls.Choosing, Ls.Placing, Ls.Managing, Ls.Acquiring the
--   registry of connections; Ls.Races its calls by goroutines; Ls.Stories, Ls.Lifetimes and Ls.Losses the reports
--   of a slot; Ls.Causes and Ls.Streams the parser; Ls.Serving, Ls.Ids, Ls.Changes, Ls.Leaving, Ls.Joining, Ls.Delivering, Ls.Counting and
--   Ls.Subscribers the client.
--
-- Socket: internal/core/pkg/wsrefact_v5, the client before the multiplexer.
--   Socket.Intents: store.go and errors.go. Socket.State: types.go and the state of the loop. Socket.Workers:
--   ioworker.go, session.go and transport.go. Socket.Loop and Socket.Client: client.go. Every event is one step
--   of the loop; what the goroutines of dials, timers, read loops and workers put into the event channel are
--   steps too, and so are the parts of a call of `Subscriptions`, which waits for its keys. A generator of
--   payloads answers by the time of the step; the hook `OnReady` is a tree of the writes that it makes and of how
--   it goes on after their outcomes; the ticks that a worker takes while the loop writes are a parameter.
--   The other modules prove: Socket.Ordering the store; Socket.Phases, Socket.Progress, Socket.Steady and
--   Socket.Phased what is under way; Socket.Queries, Socket.Counts, Socket.Replies, Socket.Once, Socket.Resolving where a call
--   is resolved; Socket.Writes and Socket.Activation the replay; Socket.Stranding what is left behind.
--
-- Bounds and fuel. Loops over slices and maps are structural recursion. `Feeds.Breaker.finish` runs one call
-- for as many steps as the longest path of the call has, four for `Fail` and three for `Success`.
-- `Socket.Workers.wait` lets a worker take as many events as its queue holds. `Ls.Conns.choose` has fuel for
-- one round more than a slot may have routes, and Ls.Choosing is about its being enough.
-- `Prelude.Float.excess_bits` has fuel for a product of a mantissa and a factor below 2 ^ 14. Counters of
-- Go's int64 and uint64 wrap around; counts of references are int64. What is said of the subscribers of the
-- LS client is for fewer than 2 ^ 64 operations, before their identifiers wrap around.
--
-- Not modelled. What other code does (the websocket, the encoder, placement policies, brokers, the choice of
-- a broker) is a parameter. Texts of logs, errors and reasons, timers and random delays, the theme file, the
-- joins of goroutines at the shutdown, and the other packages of the repository (the generations of the
-- websocket client before wsrefact_v5, the backoff delays and defaults of that one, the adapters of other
-- vendors, the REST calls of LS, configuration, encryption) are left out.
pub mod Prelude
pub mod Mux
pub mod Trading
pub mod Feeds
pub mod Ls
pub mod Socket
