-- ===== src/Mux/Loop.antt =====
-- mux.go of internal/core/pkg/wsrefact_v6: the run loop, the worker events and the shutdown.
use custom_hts_legacy.Prelude.{
  ℕ, zero, suc, Bool, true, false, Option, none, some, List, [], ◌∷◌, if◌then◌else◌, get_elem?, set,
  length,
}
use custom_hts_legacy.Mux.Types.{
  Err, mux_stopped, as_encode_error, UserCommand, IoWorkerEvent, IoWorkerEventKind, connected,
  connect_failed, reconnected, write_failed, disconnected, ping_tick, Worker, Mailbox, Mux,
  MuxRunState, ready, running, stopping, stopped, resolved, is_running, Contexts,
}
use custom_hts_legacy.Mux.Slot.{
  Slot, start_connect, start_reconnect, handle_worker_ready, handle_ping_tick, close_worker,
}
use custom_hts_legacy.Mux.Commands.{handle_command}

-- A handler that works through `&m.workers[i]`.
unfoldable pub at_worker : ℕ → (Slot → Slot) → Mux → Mux
at_worker i f m = elim (get_elem? m.workers i) [
  | none ↦ m
  | some w ↦
      let s = f (record { worker = w; contexts = m.contexts }) in
      record m { workers = set m.workers i s.worker; contexts = s.contexts }
]

-- Only an encode failure is fatal.
unfoldable pub fatal_of : Option Err → Option Err
unfolding as_encode_error
fatal_of none = none
fatal_of (some e) = if as_encode_error e then some e else none

-- `handleIOWorkerEvent`: the mux after it, and its error.
unfoldable pub dispatch_event : IoWorkerEventKind → IoWorkerEvent → Mux → Mux × Option Err
unfolding at_worker fatal_of
dispatch_event connected event m =
    (at_worker event.worker_index (handle_worker_ready m.subscriptions event.worker_index) m, none)
dispatch_event reconnected event m =
    (at_worker event.worker_index (handle_worker_ready m.subscriptions event.worker_index) m, none)
dispatch_event connect_failed event m = (at_worker event.worker_index start_reconnect m, none)
dispatch_event disconnected event m = (at_worker event.worker_index start_reconnect m, none)
dispatch_event ping_tick event m =
    (at_worker event.worker_index (handle_ping_tick event.epoch) m, none)
dispatch_event write_failed event m = (m, fatal_of event.error)

unfoldable pub handle_io_worker_event : IoWorkerEvent → Mux → Mux × Option Err
unfolding dispatch_event
handle_io_worker_event event m = dispatch_event event.kind event m

-- The buffer of `fatalCh` holds one event; a second one is dropped.
unfoldable pub publish_fatal : Err → List Err → List Err
publish_fatal e [] = e ∷ []
publish_fatal e (x ∷ xs) = x ∷ xs

unfoldable pub begin_fatal_shutdown : Option Err → Mux → Mux
unfolding publish_fatal
begin_fatal_shutdown none m = m
begin_fatal_shutdown (some e) m =
    if is_running m.state
    then record m { state = stopping; shutdown_err = some e; fatal_ch = publish_fatal e m.fatal_ch }
    else m

unfoldable pub shutdown_resolve_error : Option Err → Err
shutdown_resolve_error none = mux_stopped
shutdown_resolve_error (some e) = e

-- The loop of `handleShutdown` over the workers, in the order of their indices.
unfoldable pub close_workers : List Worker → Contexts → List Worker × Contexts
unfolding close_worker
close_workers [] c = ([], c)
close_workers (w ∷ ws) c =
    let s = close_worker (record { worker = w; contexts = c }) in
    let (ws', c') = close_workers ws s.contexts in (s.worker ∷ ws', c')

-- `handleShutdown`. The wait for the worker loops and the heartbeat goroutines changes no state.
unfoldable pub handle_shutdown : Mux → Mux
unfolding close_workers
handle_shutdown m =
    let (ws, c) = close_workers m.workers m.contexts in
    record m { workers = ws; contexts = c; fatal_closed = true; state = stopped }

abbrev drop_first : {A : Type 0} → List A → List A
drop_first [] = []
drop_first (x ∷ xs) = xs

-- A receive from a mailbox.
unfoldable pub receive_next : Mailbox → Mailbox
receive_next b = record b { queue = drop_first b.queue }

-- The goroutine of a worker takes the next command out of its mailbox; what it does with it is in
-- Mux/IoWorker.
unfoldable pub take_command : Slot → Slot
unfolding receive_next
take_command s = record s { worker = record (s.worker) { mailbox = receive_next s.worker.mailbox } }

-- What the `select` of `Run` can receive, and, between two rounds, the step in which the goroutine of a
-- worker takes a command out of its mailbox.
pub data Input : Type 0 where
  command : UserCommand → Input
  commands_closed : Input
  event : IoWorkerEvent → Input
  takes : ℕ → Input

-- One round of `Run`'s loop, or a command taken by a worker. After the shutdown the loop has returned.
unfoldable pub receive : Input → Mux → Mux
unfolding handle_command resolved shutdown_resolve_error handle_shutdown handle_io_worker_event
    begin_fatal_shutdown at_worker take_command
receive (command c) m =
    if is_running m.state
    then handle_command c m
    else resolved c.subscription (some (shutdown_resolve_error m.shutdown_err)) m
receive commands_closed m = handle_shutdown m
receive (takes i) m = at_worker i take_command m
receive (event e) m = let (m', fatal) = handle_io_worker_event e m in begin_fatal_shutdown fatal m'

abbrev pub is_mux_stopped : MuxRunState → Bool
is_mux_stopped stopped = true
is_mux_stopped _ = false

unfoldable pub step : Input → Mux → Mux
unfolding receive
step input m = if is_mux_stopped m.state then m else receive input m

unfoldable pub run_loop : List Input → Mux → Mux
unfolding step
run_loop [] m = m
run_loop (input ∷ inputs) m = run_loop inputs (step input m)

-- The loop of `Run` that starts the `n` workers from index `i` on.
unfoldable pub start_workers : ℕ → ℕ → Mux → Mux
unfolding at_worker start_connect
start_workers zero i m = m
start_workers (suc n) i m = start_workers n (suc i) (at_worker i start_connect m)

abbrev pub is_ready : MuxRunState → Bool
is_ready ready = true
is_ready _ = false

-- `Run` on what it receives, with what the workers take out of their mailboxes.
unfoldable pub run : List Input → Mux → Mux
unfolding start_workers run_loop
run inputs m =
    if is_ready m.state
    then run_loop inputs (start_workers (length m.workers) 0 (record m { state = running }))
    else m
