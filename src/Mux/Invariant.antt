-- ===== src/Mux/Invariant.antt =====
-- Every handler of the run loop of internal/core/pkg/wsrefact_v6 keeps the desired state consistent.
use custom_hts_legacy.Prelude.{
  ℕ, zero, suc, ◌≡◌, refl, sym, ap, inl, inr, Option, none, some, List, [], ◌∷◌, map, String,
  string_eq, nat_eq, arith, length, get_elem?, set, Option-cases, Bool-cases, get_elem?-lt,
  get_elem?-of_lt, map-set, length-map, get_elem?-map, set-get_elem?, ◌∙◌,
}
use custom_hts_legacy.Prelude.Maps.{lookup, insert, delete, lookup-insert, lookup-delete}
use custom_hts_legacy.Mux.Types.{
  Err, UserCommand, UserCommandKind, IoWorkerEvent, IoWorkerEventKind, MuxSubscription, Worker, Mux,
  Contexts, running, resolved, is_connected, is_running,
}
use custom_hts_legacy.Mux.Keys.{remove_key, remove_key_absent}
use custom_hts_legacy.Mux.Slot.{
  Slot, start_connect, start_reconnect, handle_worker_ready, handle_ping_tick, close_worker,
}
use custom_hts_legacy.Mux.Commands.{
  update_worker, remove_desired_key, subscribe_intent, place_subscription, subscribe_at,
  subscribe_placed, handle_subscribe, unsubscribe_entry, handle_unsubscribe, dispatch_command,
  handle_command,
}
use custom_hts_legacy.Mux.Loop.{
  at_worker, dispatch_event, handle_io_worker_event, begin_fatal_shutdown, close_workers, Input,
  command, commands_closed, event, takes, take_command, receive, step, run_loop, start_workers, run,
  is_mux_stopped, is_ready,
}
use custom_hts_legacy.Mux.Placement.{pick_worker}
use custom_hts_legacy.Mux.Least.{pick_worker_in_range, Result-cases}
use custom_hts_legacy.Mux.Subscribing.{offer_write-cases}
use custom_hts_legacy.Mux.Unsubscribing.{Retracted, removed, unsubscribe_entry-Retracted}
use custom_hts_legacy.Mux.Consistency.{
  Consistent, Consistent-ext, Consistent-insert, Consistent-delete, Consistent-restore,
}

abbrev pub desired_of : Worker → List String
desired_of w = w.desired_keys

abbrev pub IsConsistent : Mux → Type 0
IsConsistent m = Consistent m.subscriptions (map desired_of m.workers)

-- A handler of one worker that leaves the worker's replay order alone.
abbrev KeepsKeys : (Slot → Slot) → Type 0
KeepsKeys f = (s : Slot) → (f s).worker.desired_keys ≡ s.worker.desired_keys

at_worker-IsConsistent :
    (i : ℕ) (f : Slot → Slot) (m : Mux)
    → KeepsKeys f
    → IsConsistent m
    → IsConsistent (at_worker i f m)
unfolding at_worker
at_worker-IsConsistent i f m keep v = elim (Option-cases (get_elem? m.workers i)) [
  | inl e ↦ rw (e, at_worker) v
  | inr (w, e) ↦
      rw
        (
          e,
          at_worker,
          map-set desired_of m.workers i,
          keep (record { worker = w; contexts = m.contexts }),
          set-get_elem? (map desired_of m.workers) i (get_elem?-map desired_of m.workers i e),
        )
        v
]

keys-start_connect : KeepsKeys start_connect
unfolding start_connect
keys-start_connect s = refl

keys-start_reconnect : KeepsKeys start_reconnect
unfolding start_reconnect
keys-start_reconnect s = ground arith

keys-handle_worker_ready :
    (subs : List (String × MuxSubscription)) (i : ℕ) → KeepsKeys (handle_worker_ready subs i)
unfolding handle_worker_ready
keys-handle_worker_ready subs i s = ground arith

keys-handle_ping_tick : (epoch : ℕ) → KeepsKeys (handle_ping_tick epoch)
unfolding handle_ping_tick
keys-handle_ping_tick epoch s = ground arith

keys-close_workers :
    (ws : List Worker) (c : Contexts) → map desired_of (close_workers ws c).0 ≡ map desired_of ws
unfolding close_workers
keys-close_workers [] c = refl
keys-close_workers (w ∷ ws) c =
    ap (◌∷◌ w.desired_keys)
      (keys-close_workers ws (close_worker (record { worker = w; contexts = c })).contexts)

dispatch_event-IsConsistent :
    (kind : IoWorkerEventKind) (e : IoWorkerEvent) (m : Mux)
    → IsConsistent m
    → IsConsistent (dispatch_event kind e m).0
unfolding dispatch_event
dispatch_event-IsConsistent IoWorkerEventKind.connected e m v =
    at_worker-IsConsistent e.worker_index (handle_worker_ready m.subscriptions e.worker_index) m
      (keys-handle_worker_ready m.subscriptions e.worker_index) v
dispatch_event-IsConsistent IoWorkerEventKind.reconnected e m v =
    at_worker-IsConsistent e.worker_index (handle_worker_ready m.subscriptions e.worker_index) m
      (keys-handle_worker_ready m.subscriptions e.worker_index) v
dispatch_event-IsConsistent IoWorkerEventKind.connect_failed e m v =
    at_worker-IsConsistent e.worker_index start_reconnect m keys-start_reconnect v
dispatch_event-IsConsistent IoWorkerEventKind.disconnected e m v =
    at_worker-IsConsistent e.worker_index start_reconnect m keys-start_reconnect v
dispatch_event-IsConsistent IoWorkerEventKind.ping_tick e m v =
    at_worker-IsConsistent e.worker_index (handle_ping_tick e.epoch) m
      (keys-handle_ping_tick e.epoch) v
dispatch_event-IsConsistent IoWorkerEventKind.write_failed e m v = v

handle_io_worker_event-IsConsistent :
    (e : IoWorkerEvent) (m : Mux) → IsConsistent m → IsConsistent (handle_io_worker_event e m).0
unfolding handle_io_worker_event
handle_io_worker_event-IsConsistent e m v = dispatch_event-IsConsistent e.kind e m v

begin_fatal_shutdown-IsConsistent :
    (e : Option Err) (m : Mux) → IsConsistent m → IsConsistent (begin_fatal_shutdown e m)
unfolding begin_fatal_shutdown
begin_fatal_shutdown-IsConsistent none m v = v
begin_fatal_shutdown-IsConsistent (some e) m v = elim (Bool-cases (is_running m.state)) [
  | inl on ↦ rw on v
  | inr off ↦ rw off v
]

start_workers-IsConsistent :
    (n i : ℕ) (m : Mux) → IsConsistent m → IsConsistent (start_workers n i m)
unfolding start_workers
start_workers-IsConsistent zero i m v = v
start_workers-IsConsistent (suc n) i m v =
    start_workers-IsConsistent n (suc i) (at_worker i start_connect m)
      (at_worker-IsConsistent i start_connect m keys-start_connect v)

-- What the mux is after a write was sent or refused, where the replay order is left alone.
sent-IsConsistent :
    (i : ℕ) (w w' : Worker) (m : Mux)
    → get_elem? m.workers i ≡ some w
    → w'.desired_keys ≡ w.desired_keys
    → IsConsistent m
    → IsConsistent (record m { workers = set m.workers i w' })
sent-IsConsistent i w w' m at same v =
    rw
      (
        map-set desired_of m.workers i,
        same,
        set-get_elem? (map desired_of m.workers) i (get_elem?-map desired_of m.workers i at),
      )
      v

-- The entry of a refused write goes again. Its key was not desired, so that the removal of the key
-- leaves the replay order alone.
withdrawn-IsConsistent :
    (key : String) (i : ℕ) (x : MuxSubscription) (m : Mux)
    → lookup key m.subscriptions ≡ none
    → IsConsistent m
    → IsConsistent (
        remove_desired_key i key
          (record m { subscriptions = delete key (insert key x m.subscriptions) }))
unfolding remove_desired_key update_worker
withdrawn-IsConsistent key i x m absent v = elim (Option-cases (get_elem? m.workers i)) [
  | inl e ↦ rw (e, update_worker) same
  | inr (w, e) ↦
      rw
        (
          e,
          update_worker,
          map-set desired_of m.workers i,
          remove_key_absent w.desired_keys key (λ k.
              let (y, h, _) =
                v.desired i w.desired_keys key (get_elem?-map desired_of m.workers i e) k in
              cc (sym absent ∙ h)),
          set-get_elem? (map desired_of m.workers) i (get_elem?-map desired_of m.workers i e),
        )
        same
]
  where
    same : Consistent (delete key (insert key x m.subscriptions)) (map desired_of m.workers)
    same =
        Consistent-ext m.subscriptions (delete key (insert key x m.subscriptions))
          (map desired_of m.workers)
          (λ k. ground (
            arith,
            lookup-delete key k (insert key x m.subscriptions),
            lookup-insert key k x m.subscriptions,
            string_eq.beq_iff key k,
          ))
          v

place_subscription-IsConsistent :
    (c : UserCommand) (i : ℕ) (w : Worker) (m : Mux)
    → lookup c.key m.subscriptions ≡ none
    → get_elem? m.workers i ≡ some w
    → IsConsistent m
    → IsConsistent (place_subscription c i w m)
unfolding place_subscription resolved
place_subscription-IsConsistent c i w m absent at v = elim (Bool-cases (is_connected w.state)) [
  | inr off ↦ rw (off, place_subscription) recorded-IsConsistent
  | inl on ↦ elim (offer_write-cases i w (subscribe_intent c.key) c.subscription recorded) [
    | inl (_, full) ↦
        rw (on, place_subscription, full) (withdrawn-IsConsistent c.key i entry m absent v)
    | inr (room, sent) ↦
        rw (on, place_subscription, sent)
          (sent-IsConsistent i w _ recorded at refl recorded-IsConsistent)
  ]
]
  where
    entry : MuxSubscription
    entry = record { worker_index = i; intent = subscribe_intent c.key }

    recorded : Mux
    recorded = record m { subscriptions = insert c.key entry m.subscriptions }

    recorded-IsConsistent : IsConsistent recorded
    recorded-IsConsistent =
        Consistent-insert m.subscriptions (map desired_of m.workers) c.key i absent
          (omega (arith, length-map desired_of m.workers, get_elem?-lt m.workers i at)) v

pub handle_subscribe-IsConsistent :
    (c : UserCommand) (m : Mux) → IsConsistent m → IsConsistent (handle_subscribe c m)
unfolding handle_subscribe
handle_subscribe-IsConsistent c m v = elim (Option-cases (lookup c.key m.subscriptions)) [
  | inr (x, there) ↦ rw (there, handle_subscribe) v
  | inl absent ↦ elim (Result-cases (pick_worker m.placement_policy c.key m.workers)) [
    | inl (e, no_worker) ↦ rw (absent, no_worker, handle_subscribe) v
    | inr (i, chosen) ↦
        let (w, at, _) = pick_worker_in_range m.placement_policy c.key m.workers i chosen in
        rw (absent, chosen, handle_subscribe, subscribe_placed, subscribe_at, at)
          (place_subscription-IsConsistent c i w m absent at v)
  ]
]

Retracted-IsConsistent :
    (c : UserCommand) (x : MuxSubscription) (w : Worker) (m m' : Mux)
    → lookup c.key m.subscriptions ≡ some x
    → get_elem? m.workers x.worker_index ≡ some w
    → IsConsistent m
    → Retracted c x w m m'
    → IsConsistent m'
unfolding resolved
Retracted-IsConsistent c x w m m' here at v r = elim r [
  | inl (off, e) ↦ rw (e, resolved) removed-IsConsistent
  | inr (inl (on, e)) ↦
      rw (e, resolved, map-set desired_of m.workers x.worker_index)
        (Consistent-ext m.subscriptions _ _
          (λ k. ground (
            arith,
            lookup-insert c.key k x (delete c.key m.subscriptions),
            lookup-delete c.key k m.subscriptions,
            string_eq.beq_iff c.key k,
          ))
          (Consistent-restore m.subscriptions (map desired_of m.workers) c.key x w.desired_keys here
            at' v))
  | inr (inr (on, e)) ↦ rw (e, map-set desired_of m.workers x.worker_index) removed'
]
  where
    at' : get_elem? (map desired_of m.workers) x.worker_index ≡ some w.desired_keys
    at' = get_elem?-map desired_of m.workers x.worker_index at

    removed' :
        Consistent
          (delete c.key m.subscriptions)
          (set (map desired_of m.workers) x.worker_index (remove_key w.desired_keys c.key).0)
    removed' =
        Consistent-delete m.subscriptions (map desired_of m.workers) c.key x w.desired_keys here at'
          v

    removed-IsConsistent : IsConsistent (removed c.key x.worker_index w m)
    removed-IsConsistent = rw (map-set desired_of m.workers x.worker_index) removed'

-- The worker of an entry.
pub entry_worker :
    (key : String) (x : MuxSubscription) (m : Mux)
    → lookup key m.subscriptions ≡ some x
    → IsConsistent m
    → (w : Worker) × (get_elem? m.workers x.worker_index ≡ some w)
entry_worker key x m here v =
    get_elem?-of_lt m.workers x.worker_index
      (omega (arith, length-map desired_of m.workers, v.in_range key x here))

handle_unsubscribe-IsConsistent :
    (c : UserCommand) (m : Mux) → IsConsistent m → IsConsistent (handle_unsubscribe c m)
unfolding handle_unsubscribe
handle_unsubscribe-IsConsistent c m v = elim (Option-cases (lookup c.key m.subscriptions)) [
  | inl absent ↦ rw (absent, handle_unsubscribe) v
  | inr (x, here) ↦
      let (w, at) = entry_worker c.key x m here v in
      rw (here, handle_unsubscribe)
        (Retracted-IsConsistent c x w m (unsubscribe_entry c x m) here at v
          (unsubscribe_entry-Retracted c x w m at))
]

handle_command-IsConsistent :
    (c : UserCommand) (m : Mux) → IsConsistent m → IsConsistent (handle_command c m)
unfolding handle_command
handle_command-IsConsistent c m v = by_kind c.kind
  where
    by_kind : (kind : UserCommandKind) → IsConsistent (dispatch_command kind c m)
    by_kind UserCommandKind.subscribe = handle_subscribe-IsConsistent c m v
    by_kind UserCommandKind.unsubscribe = handle_unsubscribe-IsConsistent c m v

keys-take_command : KeepsKeys take_command
unfolding take_command
keys-take_command s = refl

receive-IsConsistent : (input : Input) (m : Mux) → IsConsistent m → IsConsistent (receive input m)
unfolding receive
receive-IsConsistent (command c) m v = elim (Bool-cases (is_running m.state)) [
  | inl on ↦ rw (on, receive) (handle_command-IsConsistent c m v)
  | inr off ↦ rw (off, receive) v
]
receive-IsConsistent commands_closed m v = rw (keys-close_workers m.workers m.contexts) v
receive-IsConsistent (takes i) m v = at_worker-IsConsistent i take_command m keys-take_command v
receive-IsConsistent (event e) m v =
    begin_fatal_shutdown-IsConsistent (handle_io_worker_event e m).1 (handle_io_worker_event e m).0
      (handle_io_worker_event-IsConsistent e m v)

-- One round of the run loop keeps the desired state consistent, whatever it receives.
pub step-IsConsistent : (input : Input) (m : Mux) → IsConsistent m → IsConsistent (step input m)
unfolding step
step-IsConsistent input m v = elim (Bool-cases (is_mux_stopped m.state)) [
  | inl over ↦ rw (over, step) v
  | inr going ↦ rw (going, step) (receive-IsConsistent input m v)
]

run_loop-IsConsistent :
    (inputs : List Input) (m : Mux) → IsConsistent m → IsConsistent (run_loop inputs m)
unfolding run_loop
run_loop-IsConsistent [] m v = v
run_loop-IsConsistent (input ∷ inputs) m v =
    run_loop-IsConsistent inputs (step input m) (step-IsConsistent input m v)

-- After any sequence of commands, worker events and commands taken by workers, in any order, each entry names a worker of the mux
-- and the key that it stands under, each desired key of a worker has an entry with that worker, and no
-- worker desires a key twice; if this holds before `Run`.
pub run-IsConsistent :
    (inputs : List Input) (m : Mux) → IsConsistent m → IsConsistent (run inputs m)
unfolding run
run-IsConsistent inputs m v = elim (Bool-cases (is_ready m.state)) [
  | inl on ↦
      rw (on, run)
        (run_loop-IsConsistent inputs _
          (start_workers-IsConsistent (length m.workers) 0 (record m { state = running }) v))
  | inr off ↦ rw (off, run) v
]
