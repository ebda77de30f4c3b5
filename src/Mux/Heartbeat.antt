-- ===== src/Mux/Heartbeat.antt =====
-- Heartbeats and dial programs of internal/core/pkg/wsrefact_v6/mux.go across reconnects and shutdown.
use custom_hts_legacy.Prelude.{
  ℕ, zero, suc, ◌≡◌, refl, sym, subst, ◌⊎◌, inl, inr, true, Option, none, some, List, [], ◌∷◌, map,
  arith, length, get_elem?, set, Elem, All, Option-cases, Bool-cases, map-set, String,
}
use custom_hts_legacy.Mux.Types.{
  Err, IoWorkerEventKind, IoWorkerEvent, MuxSubscription, stopped, Worker, Contexts, Mux,
  MuxRunState, running, is_connected, is_running,
}
use custom_hts_legacy.Mux.Slot.{
  Slot, start_connect, start_reconnect, handle_worker_ready, handle_ping_tick, close_worker, cancel,
}
use custom_hts_legacy.Mux.Loop.{
  at_worker, dispatch_event, begin_fatal_shutdown, close_workers, handle_shutdown, Input, command,
  commands_closed, event, takes, take_command, receive, step, run_loop, start_workers, run,
  is_mux_stopped, is_ready,
}
use custom_hts_legacy.Mux.Lifecycle.{Link, link, Frame, frame-dispatch_command}

-- A worker holds a heartbeat only while it is connected.
abbrev pub BeatsConnected : Link → Type 0
BeatsConnected l = (l.ping_cancel ≡ none) ⊎ (is_connected l.state ≡ true)

abbrev pub BeatsOf : Mux → Type 0
BeatsOf m = All BeatsConnected (map link m.workers)

All-set :
    (P : Link → Type 0) (ls : List Link) (i : ℕ) (l : Link) → All P ls → P l → All P (set ls i l)
All-set P [] i l h p = tt
All-set P (x ∷ ls) zero l h p = (p, h.1)
All-set P (x ∷ ls) (suc i) l h p = (h.0, All-set P ls i l h.1 p)

All-get_elem? :
    (P : Link → Type 0) (ws : List Worker) (i : ℕ) (w : Worker)
    → get_elem? ws i ≡ some w
    → All P (map link ws)
    → P (link w)
All-get_elem? P [] i w at h = cc
All-get_elem? P (x ∷ ws) zero w at h = let same : x ≡ w = cc in rw same at h.0
All-get_elem? P (x ∷ ws) (suc i) w at h = All-get_elem? P ws i w at h.1

abbrev KeepsBeats : (Slot → Slot) → Type 0
KeepsBeats f = (s : Slot) → BeatsConnected (link s.worker) → BeatsConnected (link (f s).worker)

at_worker-BeatsOf :
    (i : ℕ) (f : Slot → Slot) (m : Mux) → KeepsBeats f → BeatsOf m → BeatsOf (at_worker i f m)
unfolding at_worker
at_worker-BeatsOf i f m keep h = elim (Option-cases (get_elem? m.workers i)) [
  | inl e ↦ rw (e, at_worker) h
  | inr (w, e) ↦
      rw (e, at_worker, map-set link m.workers i)
        (All-set BeatsConnected (map link m.workers) i _ h (
          keep (record { worker = w; contexts = m.contexts })
            (All-get_elem? BeatsConnected m.workers i w e h)))
]

-- `runReplay` and `startPingTicker` leave a stopped worker without a new heartbeat, and connect others.
ready_beats :
    (subs : List (String × MuxSubscription)) (i : ℕ) → KeepsBeats (handle_worker_ready subs i)
unfolding handle_worker_ready
ready_beats subs i s h = ground arith

reconnect_beats : KeepsBeats start_reconnect
unfolding start_reconnect
reconnect_beats s h = ground arith

tick_beats : (epoch : ℕ) → KeepsBeats (handle_ping_tick epoch)
unfolding handle_ping_tick
tick_beats epoch s h = ground arith

dispatch_event-BeatsOf :
    (kind : IoWorkerEventKind) (e : IoWorkerEvent) (m : Mux)
    → BeatsOf m
    → BeatsOf (dispatch_event kind e m).0
unfolding dispatch_event
dispatch_event-BeatsOf IoWorkerEventKind.connected e m h =
    at_worker-BeatsOf e.worker_index (handle_worker_ready m.subscriptions e.worker_index) m
      (ready_beats m.subscriptions e.worker_index) h
dispatch_event-BeatsOf IoWorkerEventKind.reconnected e m h =
    at_worker-BeatsOf e.worker_index (handle_worker_ready m.subscriptions e.worker_index) m
      (ready_beats m.subscriptions e.worker_index) h
dispatch_event-BeatsOf IoWorkerEventKind.connect_failed e m h =
    at_worker-BeatsOf e.worker_index start_reconnect m reconnect_beats h
dispatch_event-BeatsOf IoWorkerEventKind.disconnected e m h =
    at_worker-BeatsOf e.worker_index start_reconnect m reconnect_beats h
dispatch_event-BeatsOf IoWorkerEventKind.ping_tick e m h =
    at_worker-BeatsOf e.worker_index (handle_ping_tick e.epoch) m (tick_beats e.epoch) h
dispatch_event-BeatsOf IoWorkerEventKind.write_failed e m h = h

-- A worker after `handleShutdown`: stopped, its mailbox closed, and no heartbeat or dial program held.
pub record IsClosed (w : Worker) : Type 0 where
  pub state : w.state ≡ stopped
  pub mailbox : w.mailbox.closed ≡ true
  pub dial : w.dial_cancel ≡ none
  pub beat : w.ping_cancel ≡ none

-- The handles of a worker, as the contexts that they cancel.
abbrev pub Holds : Worker → ℕ → Type 0
Holds w ctx = (w.dial_cancel ≡ some ctx) ⊎ (w.ping_cancel ≡ some ctx)

close_worker-IsClosed : (s : Slot) → IsClosed (close_worker s).worker
unfolding close_worker
close_worker-IsClosed s = record { state = refl; mailbox = refl; dial = refl; beat = refl }

pub Elem-cancel :
    (d : Option ℕ) (c : Contexts) (ctx : ℕ)
    → (d ≡ some ctx) ⊎ Elem ctx c.cancelled
    → Elem ctx (cancel d c).cancelled
unfolding cancel
Elem-cancel none c ctx (inl e) = cc
Elem-cancel none c ctx (inr m) = m
Elem-cancel (some x) c ctx (inl e) = inl (cc)
Elem-cancel (some x) c ctx (inr m) = inr m

cancelled-close_worker :
    (s : Slot) (ctx : ℕ)
    → Elem ctx s.contexts.cancelled ⊎ Holds s.worker ctx
    → Elem ctx (close_worker s).contexts.cancelled
unfolding close_worker
cancelled-close_worker s ctx h =
    Elem-cancel s.worker.dial_cancel (cancel s.worker.ping_cancel s.contexts) ctx (elim h [
      | inl old ↦ inr (Elem-cancel s.worker.ping_cancel s.contexts ctx (inr old))
      | inr (inl d) ↦ inl d
      | inr (inr p) ↦ inr (Elem-cancel s.worker.ping_cancel s.contexts ctx (inl p))
    ])

-- A handle that one of the workers holds.
abbrev pub AnyHolds : List Worker → ℕ → Type 0
AnyHolds [] ctx = ⊥
AnyHolds (w ∷ ws) ctx = Holds w ctx ⊎ AnyHolds ws ctx

cancelled-close_workers :
    (ws : List Worker) (c : Contexts) (ctx : ℕ)
    → Elem ctx c.cancelled ⊎ AnyHolds ws ctx
    → Elem ctx (close_workers ws c).1.cancelled
unfolding close_workers
cancelled-close_workers [] c ctx (inl m) = m
cancelled-close_workers [] c ctx (inr n) = absurd n
cancelled-close_workers (w ∷ ws) c ctx h =
    cancelled-close_workers ws (close_worker (record { worker = w; contexts = c })).contexts ctx
      (elim h [
        | inl old ↦ inl (cancelled-close_worker (record { worker = w; contexts = c }) ctx (inl old))
        | inr (inl held) ↦
            inl (cancelled-close_worker (record { worker = w; contexts = c }) ctx (inr held))
        | inr (inr later) ↦ inr later
      ])

close_workers-IsClosed : (ws : List Worker) (c : Contexts) → All IsClosed (close_workers ws c).0
unfolding close_workers
close_workers-IsClosed [] c = tt
close_workers-IsClosed (w ∷ ws) c = (
  close_worker-IsClosed (record { worker = w; contexts = c }),
  close_workers-IsClosed ws (close_worker (record { worker = w; contexts = c })).contexts,
)

-- The shutdown stops every worker, closes its mailbox and drops its handles, and every context that a
-- worker held a handle of, for a dial program or a heartbeat, is cancelled. The fatal channel is
-- closed and the mux is stopped.
pub handle_shutdown_closes :
    (m : Mux)
    → let m' = handle_shutdown m in
      All IsClosed m'.workers
      × ((ctx : ℕ) → AnyHolds m.workers ctx → Elem ctx m'.contexts.cancelled)
      × (m'.fatal_closed ≡ true)
      × (m'.state ≡ MuxRunState.stopped)
unfolding handle_shutdown
handle_shutdown_closes m = (
  close_workers-IsClosed m.workers m.contexts,
  (λ ctx h. cancelled-close_workers m.workers m.contexts ctx (inr h)),
  refl,
  refl,
)

-- Closed workers hold no heartbeat.
IsClosed-beats : (ws : List Worker) → All IsClosed ws → All BeatsConnected (map link ws)
IsClosed-beats [] h = tt
IsClosed-beats (w ∷ ws) h = (inl (h.0.beat), IsClosed-beats ws h.1)

begin_fatal_shutdown-BeatsOf :
    (e : Option Err) (m : Mux) → BeatsOf m → BeatsOf (begin_fatal_shutdown e m)
unfolding begin_fatal_shutdown
begin_fatal_shutdown-BeatsOf none m h = h
begin_fatal_shutdown-BeatsOf (some e) m h = elim (Bool-cases (is_running m.state)) [
  | inl on ↦ rw on h
  | inr off ↦ rw off h
]

take_beats : KeepsBeats take_command
unfolding take_command
take_beats s h = h

receive-BeatsOf : (input : Input) (m : Mux) → BeatsOf m → BeatsOf (receive input m)
unfolding receive
receive-BeatsOf (command c) m h = elim (Bool-cases (is_running m.state)) [
  | inl on ↦
      rw (on, receive)
        (subst (λ (f : Frame). All BeatsConnected f.links) (sym (frame-dispatch_command c.kind c m))
          h)
  | inr off ↦ rw (off, receive) h
]
receive-BeatsOf commands_closed m h =
    IsClosed-beats (close_workers m.workers m.contexts).0
      (close_workers-IsClosed m.workers m.contexts)
receive-BeatsOf (takes i) m h = at_worker-BeatsOf i take_command m take_beats h
receive-BeatsOf (event e) m h =
    begin_fatal_shutdown-BeatsOf (dispatch_event e.kind e m).1 (dispatch_event e.kind e m).0
      (dispatch_event-BeatsOf e.kind e m h)

run_loop-BeatsOf : (inputs : List Input) (m : Mux) → BeatsOf m → BeatsOf (run_loop inputs m)
unfolding run_loop step
run_loop-BeatsOf [] m h = h
run_loop-BeatsOf (input ∷ inputs) m h =
    run_loop-BeatsOf inputs (step input m) (elim (Bool-cases (is_mux_stopped m.state)) [
      | inl over ↦ rw (over, step) h
      | inr going ↦ rw (going, step) (receive-BeatsOf input m h)
    ])

abbrev pub NoBeat : Link → Type 0
NoBeat l = l.ping_cancel ≡ none

NoBeat-beats : (ls : List Link) → All NoBeat ls → All BeatsConnected ls
NoBeat-beats [] h = tt
NoBeat-beats (l ∷ ls) h = (inl (h.0), NoBeat-beats ls h.1)

connect-NoBeat : (s : Slot) → NoBeat (link s.worker) → NoBeat (link (start_connect s).worker)
unfolding start_connect
connect-NoBeat s h = h

start_workers-NoBeat :
    (n i : ℕ) (m : Mux)
    → All NoBeat (map link m.workers)
    → All NoBeat (map link (start_workers n i m).workers)
unfolding start_workers at_worker
start_workers-NoBeat zero i m h = h
start_workers-NoBeat (suc n) i m h =
    start_workers-NoBeat n (suc i) (at_worker i start_connect m)
      (elim (Option-cases (get_elem? m.workers i)) [
        | inl e ↦ rw (e, at_worker) h
        | inr (w, e) ↦
            rw (e, at_worker, map-set link m.workers i)
              (All-set NoBeat (map link m.workers) i _ h (
                connect-NoBeat (record { worker = w; contexts = m.contexts })
                  (All-get_elem? NoBeat m.workers i w e h)))
      ])

-- After any sequence of commands, worker events and commands taken by workers, a worker that holds a heartbeat is connected; if
-- no worker holds one before `Run`.
pub run-BeatsConnected :
    (inputs : List Input) (m : Mux)
    → All NoBeat (map link m.workers)
    → All BeatsConnected (map link (run inputs m).workers)
unfolding run
run-BeatsConnected inputs m h = elim (Bool-cases (is_ready m.state)) [
  | inl on ↦
      rw (on, run)
        (run_loop-BeatsOf inputs (start_workers (length m.workers) 0 (record m { state = running }))
          (NoBeat-beats _
            (start_workers-NoBeat (length m.workers) 0 (record m { state = running }) h)))
  | inr off ↦ rw (off, run) (NoBeat-beats (map link m.workers) h)
]
