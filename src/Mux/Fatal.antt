-- ===== src/Mux/Fatal.antt =====
-- The fatal path of internal/core/pkg/wsrefact_v6/mux.go: one event, and its error for what follows.
use custom_hts_legacy.Prelude.{
  ◌≡◌, refl, sym, subst, ◌⊎◌, inl, inr, Bool, true, false, Option, none, some, List, [], ◌∷◌,
  nat_eq, arith, length, Bool-cases,
}
use custom_hts_legacy.Prelude.Maps.{lookup}
use custom_hts_legacy.Mux.Types.{
  Err, mux_stopped, as_encode_error, UserCommand, IoWorkerEvent, IoWorkerEventKind, Mux,
  MuxRunState, running, stopping, resolved, is_running,
}
use custom_hts_legacy.Mux.Loop.{
  fatal_of, dispatch_event, begin_fatal_shutdown, shutdown_resolve_error, Input, command,
  commands_closed, event, takes, take_command, receive, step, run_loop, run, is_mux_stopped,
  is_ready,
}
use custom_hts_legacy.Mux.Lifecycle.{
  lifecycle, lifecycle-at_worker, lifecycle-dispatch_command, lifecycle-dispatch_event,
  lifecycle-start_workers,
}
use custom_hts_legacy.Mux.Resolution.{lookup-resolve_fresh}

abbrev pub is_stopping : MuxRunState → Bool
is_stopping stopping = true
is_stopping _ = false

abbrev pub is_early : MuxRunState → Bool
is_early MuxRunState.ready = true
is_early running = true
is_early _ = false

-- Nothing was published, or one encode failure was, which is the error for what follows.
abbrev pub FatalOnce : MuxRunState × List Err × Option Err → Type 0
FatalOnce (state, fatal_ch, shutdown_err) =
    ((is_stopping state ≡ false) × (fatal_ch ≡ []) × (shutdown_err ≡ some mux_stopped))
    ⊎ ((is_early state ≡ false)
        × ((e : Err) × (fatal_ch ≡ e ∷ []) × (shutdown_err ≡ some e) × (as_encode_error e ≡ true)))

abbrev IsEncode : Option Err → Type 0
IsEncode none = Unit
IsEncode (some e) = as_encode_error e ≡ true

fatal_of-IsEncode : (e : Option Err) → IsEncode (fatal_of e)
unfolding fatal_of
fatal_of-IsEncode none = tt
fatal_of-IsEncode (some e) = elim (Bool-cases (as_encode_error e)) [
  | inl on ↦ rw on on
  | inr off ↦ rw off tt
]

dispatch_event-IsEncode :
    (kind : IoWorkerEventKind) (e : IoWorkerEvent) (m : Mux) → IsEncode (dispatch_event kind e m).1
unfolding dispatch_event
dispatch_event-IsEncode IoWorkerEventKind.connected e m = tt
dispatch_event-IsEncode IoWorkerEventKind.reconnected e m = tt
dispatch_event-IsEncode IoWorkerEventKind.connect_failed e m = tt
dispatch_event-IsEncode IoWorkerEventKind.disconnected e m = tt
dispatch_event-IsEncode IoWorkerEventKind.ping_tick e m = tt
dispatch_event-IsEncode IoWorkerEventKind.write_failed e m = fatal_of-IsEncode e.error

begin_fatal_shutdown-FatalOnce :
    (e : Option Err) (m : Mux)
    → IsEncode e
    → FatalOnce (lifecycle m)
    → FatalOnce (lifecycle (begin_fatal_shutdown e m))
unfolding begin_fatal_shutdown
begin_fatal_shutdown-FatalOnce none m h v = v
begin_fatal_shutdown-FatalOnce (some e) m h v = ground arith

receive-FatalOnce :
    (input : Input) (m : Mux)
    → is_mux_stopped m.state ≡ false
    → FatalOnce (lifecycle m)
    → FatalOnce (lifecycle (receive input m))
unfolding receive
receive-FatalOnce (command c) m going v = elim (Bool-cases (is_running m.state)) [
  | inl on ↦ rw (on, receive) (subst FatalOnce (sym (lifecycle-dispatch_command c.kind c m)) v)
  | inr off ↦ rw (off, receive) v
]
receive-FatalOnce commands_closed m going v = elim v [
  | inl (a, b, c) ↦ inl (refl, b, c)
  | inr (a, b) ↦ inr (refl, b)
]
receive-FatalOnce (takes i) m going v =
    subst FatalOnce (sym (lifecycle-at_worker i take_command m)) v
receive-FatalOnce (event e) m going v =
    begin_fatal_shutdown-FatalOnce (dispatch_event e.kind e m).1 (dispatch_event e.kind e m).0
      (dispatch_event-IsEncode e.kind e m)
      (subst FatalOnce (sym (lifecycle-dispatch_event e.kind e m)) v)

run_loop-FatalOnce :
    (inputs : List Input) (m : Mux)
    → FatalOnce (lifecycle m)
    → FatalOnce (lifecycle (run_loop inputs m))
unfolding run_loop step
run_loop-FatalOnce [] m v = v
run_loop-FatalOnce (input ∷ inputs) m v =
    run_loop-FatalOnce inputs (step input m) (elim (Bool-cases (is_mux_stopped m.state)) [
      | inl over ↦ rw (over, step) v
      | inr going ↦ rw (going, step) (receive-FatalOnce input m going v)
    ])

started-FatalOnce :
    (m : Mux)
    → is_ready m.state ≡ true
    → FatalOnce (lifecycle m)
    → FatalOnce (running, m.fatal_ch, m.shutdown_err)
started-FatalOnce m on v = ground arith

-- Whatever the loop receives, at most one fatal event is published: none as long as the mux is
-- starting or running, and then only an encode failure, which is also the error with which later
-- commands are resolved; if this holds before `Run`.
pub run-FatalOnce :
    (inputs : List Input) (m : Mux) → FatalOnce (lifecycle m) → FatalOnce (lifecycle (run inputs m))
unfolding run
run-FatalOnce inputs m v = elim (Bool-cases (is_ready m.state)) [
  | inl on ↦
      rw (on, run)
        (run_loop-FatalOnce inputs _ (
          subst FatalOnce
            (sym (lifecycle-start_workers (length m.workers) 0 (record m { state = running })))
            (started-FatalOnce m on v)))
  | inr off ↦ rw (off, run) v
]

-- Once a fatal event was published, a command with a new handle gets the published error, and changes
-- neither the subscriptions nor a worker.
pub stopping_rejects :
    (c : UserCommand) (m : Mux)
    → FatalOnce (lifecycle m)
    → m.state ≡ stopping
    → lookup c.subscription m.results ≡ none
    → let m' = receive (command c) m in
      ((e : Err) × (m.fatal_ch ≡ e ∷ []) × (lookup c.subscription m'.results ≡ some (some e)))
      × (m'.subscriptions ≡ m.subscriptions)
      × (m'.workers ≡ m.workers)
unfolding receive resolved
stopping_rejects c m v now fresh = elim v [
  | inl (a, _, _) ↦ absurd (cc (rw now at a))
  | inr (_, (e, ch, error, _)) ↦
      rw (now, receive, error, shutdown_resolve_error)
        ((e, ch, lookup-resolve_fresh c.subscription (some e) m.results fresh), refl, refl)
]
