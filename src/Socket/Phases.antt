-- ===== src/Socket/Phases.antt =====
-- internal/core/pkg/wsrefact_v5/client.go: a running client has a dial in flight, a backoff timer or a live
-- connection, and never two of these.
use custom_hts_legacy.Socket.State.{Hook, returns, writes}
use custom_hts_legacy.Socket.Loop.{replayer_frame, replayer_send, run_hook}
use custom_hts_legacy.Socket.Workers.{ping_times, tick_first, write_sync}
use custom_hts_legacy.Prelude.{zero}
use custom_hts_legacy.Prelude.{
  ℕ, suc, ◌+◌, ◌≡◌, refl, sym, ◌∙◌, ap, String, Bool, true, false, ◌||◌, Option, none, some, List,
  [], ◌∷◌, ltb, nat_eq, if◌then◌else◌, ◌⊎◌, inl, inr, length, Bool-cases, Option-cases, is_some,
  if_true, if_false,
}
use custom_hts_legacy.Prelude.Int.{ℤ}
use custom_hts_legacy.Prelude.Maps.{lookup}
use custom_hts_legacy.Socket.Intents.{
  Err, handler_continue, handler_backoff, PayloadGen, Intent, IntentStore, put, remove,
}
use custom_hts_legacy.Socket.Intents
use custom_hts_legacy.Socket.State.{
  ConnState, ConnEvent, is_connected, SubscribeOptions, Frame, WorkerEvent, write, dispose,
  Transport, Config, Loop, emit,
}
use custom_hts_legacy.Socket.Workers.{
  try_enqueue, worker_step, handle_queue, handle_ping, send_sync, dispose_transport,
}
use custom_hts_legacy.Socket.Loop.{
  with_state, writable, offered, handle_send, write_generated, route_generated, subscribe_put,
  subscribe_with, unsubscribe_removed, schedule_reconnect, release, release_live, enter_backoff,
  replay_generated, then_go, on_ready_hook, replay, activate, activated, with_transport, dialed,
}

abbrev pub bit : Bool → ℕ
bit true = 1
bit false = 0

-- What the phase of the loop depends on.
pub record Phase : Type 0 where
  pub cancelled : Bool
  pub dialing : Bool
  pub waiting : Bool
  pub live : Bool
  pub up : Bool
  pub routed : Bool
  pub dials : ℕ
  pub timers : ℕ

abbrev pub phase_of : Loop → Phase
phase_of l = record {
  cancelled = l.cancelled;
  dialing = l.dialing;
  waiting = l.waiting_reconnect;
  live = is_some l.live;
  up = is_connected l.state;
  routed = l.routing_open;
  dials = length l.dials;
  timers = length l.timers;
}

abbrev pub scheduled : Phase → Phase
scheduled p =
    if p.waiting || p.cancelled then p else record p { waiting = true; timers = suc p.timers }

abbrev pub released : Phase → Phase
released p = record p { live = false; routed = false; up = false }

abbrev pub opened : Phase → Phase
opened p = record p { up = true; routed = true }

abbrev pub IsDialed : Phase → Phase → Type 0
IsDialed p q =
    (q ≡ scheduled p)
    ⊎ (q ≡ scheduled (released (record p { live = true; routed = false })))
    ⊎ (q ≡ opened (record p { live = true; routed = false }))

module _ (config : Config) where
  offered-phase :
      (id : ℕ) (frame : Frame) (handle : ℕ) (l : Loop)
      → phase_of (offered handle (try_enqueue config id frame handle l)) ≡ phase_of l
  unfolding try_enqueue
  offered-phase id frame handle l = elim (Option-cases (lookup id l.transports)) [
    | inl gone ↦ rw (try_enqueue, gone) refl
    | inr (t, found) ↦ elim (Bool-cases (ltb (length t.queue) config.write_queue_size)) [
      | inl room ↦ rw (try_enqueue, found, room) refl
      | inr packed ↦ rw (try_enqueue, found, packed) refl
    ]
  ]

  pub send-phase :
      (frame : Frame) (handle : ℕ) (l : Loop)
      → phase_of (handle_send config frame handle l) ≡ phase_of l
  unfolding handle_send
  send-phase frame handle l = elim (Option-cases (writable l)) [
    | inl closed ↦ rw (handle_send, closed) refl
    | inr (id, there) ↦ rw (handle_send, there) (offered-phase id _ handle l)
  ]

  written-phase :
      (id : ℕ) (r : Err ⊎ ℕ) (message_type write_timeout : ℤ) (handle : ℕ) (l : Loop)
      → phase_of (write_generated config id r message_type write_timeout handle l) ≡ phase_of l
  written-phase id (inl e) message_type write_timeout handle l = refl
  written-phase id (inr payload) message_type write_timeout handle l = offered-phase id _ handle l

  routed-phase :
      (now : ℕ) (gen : PayloadGen) (intent : Intent) (handle : ℕ) (l : Loop)
      → phase_of (route_generated config now gen intent handle l) ≡ phase_of l
  unfolding route_generated
  routed-phase now gen intent handle l = elim (Option-cases (writable l)) [
    | inl closed ↦ rw (route_generated, closed) refl
    | inr (id, there) ↦
        rw (route_generated, there)
          (written-phase id (gen now) intent.message_type intent.write_timeout handle l)
  ]

  put-phase :
      (now : ℕ) (intent : Intent) (handle : ℕ) (r : Err ⊎ IntentStore) (l : Loop)
      → phase_of (subscribe_put config now intent handle r l) ≡ phase_of l
  put-phase now intent handle (inl e) l = refl
  put-phase now intent handle (inr store) l =
      routed-phase now intent.sub_gen intent handle (record l { store = store })

  pub with-phase :
      (now : ℕ) (sub unsub : Option PayloadGen) (key : String) (options : SubscribeOptions)
      (handle : ℕ) (l : Loop)
      → phase_of (subscribe_with config now sub unsub key options handle l) ≡ phase_of l
  unfolding subscribe_with
  with-phase now none unsub key options handle l = refl
  with-phase now (some sub) none key options handle l = refl
  with-phase now (some sub) (some unsub) key options handle l =
      let intent : Intent = record {
        key = key;
        sub_gen = sub;
        unsub_gen = unsub;
        message_type = options.message_type;
        write_timeout = options.write_timeout;
      } in
      put-phase now intent handle (put intent l.store) l

  pub removed-phase :
      (now : ℕ) (handle : ℕ) (r : Err ⊎ (Intent × IntentStore)) (l : Loop)
      → phase_of (unsubscribe_removed config now handle r l) ≡ phase_of l
  removed-phase now handle (inl e) l = refl
  removed-phase now handle (inr (intent, store)) l =
      routed-phase now intent.unsub_gen intent handle (record l { store = store })

  queue-phase :
      (id : ℕ) (t : Transport) (queue : List WorkerEvent) (l : Loop)
      → phase_of (handle_queue config id t queue l) ≡ phase_of l
  queue-phase id t [] l = refl
  queue-phase id t (dispose ∷ queue) l = refl
  queue-phase id t (write frame handle ∷ queue) l = refl

  pub worker-phase : (id : ℕ) (l : Loop) → phase_of (worker_step config id l) ≡ phase_of l
  unfolding worker_step
  worker-phase id l = elim (Option-cases (lookup id l.transports)) [
    | inl gone ↦ rw (worker_step, gone) refl
    | inr (t, found) ↦ elim (Bool-cases t.is_done) [
      | inl over ↦ rw (worker_step, found, over) refl
      | inr working ↦
          rw (worker_step, found)
            (if_false (λ x. phase_of x ≡ phase_of l) t.is_done _ _ working
              (queue-phase id t t.queue l))
    ]
  ]

  pub ping-phase : (id : ℕ) (l : Loop) → phase_of (handle_ping config id l) ≡ phase_of l
  unfolding handle_ping
  ping-phase id l = elim (Option-cases (lookup id l.transports)) [
    | inl gone ↦ rw (handle_ping, gone) refl
    | inr (t, found) ↦ elim (Bool-cases t.is_done) [
      | inl over ↦ rw (handle_ping, found, over) refl
      | inr working ↦ rw (handle_ping, found, working) refl
    ]
  ]

  pub dispose-phase : (id : ℕ) (l : Loop) → phase_of (dispose_transport id l) ≡ phase_of l
  unfolding dispose_transport
  dispose-phase id l = elim (Option-cases (lookup id l.transports)) [
    | inl gone ↦ rw (dispose_transport, gone) refl
    | inr (t, found) ↦ rw (dispose_transport, found) refl
  ]

  pings-phase : (id n : ℕ) (l : Loop) → phase_of (ping_times config id n l) ≡ phase_of l
  unfolding ping_times
  pings-phase id zero l = refl
  pings-phase id (suc n) l = pings-phase id n (handle_ping config id l) ∙ ping-phase id l

  ticked-phase : (id : ℕ) (l : Loop) → phase_of (tick_first config id l) ≡ phase_of l
  unfolding tick_first
  ticked-phase id l = elim (Option-cases (lookup id l.transports)) [
    | inl gone ↦ rw (tick_first, gone) refl
    | inr (t, found) ↦ rw (tick_first, found) (pings-phase id (config.ticks_before id t.written) l)
  ]

  written_sync-phase :
      (id : ℕ) (frame : Frame) (l : Loop) → phase_of (write_sync config id frame l).0 ≡ phase_of l
  unfolding write_sync
  written_sync-phase id frame l = elim (Option-cases (lookup id l.transports)) [
    | inl gone ↦ rw (write_sync, gone) refl
    | inr (t, found) ↦ rw (write_sync, found) refl
  ]

  sync-phase :
      (id : ℕ) (frame : Frame) (l : Loop) → phase_of (send_sync config id frame l).0 ≡ phase_of l
  unfolding send_sync
  sync-phase id frame l = written_sync-phase id frame (tick_first config id l) ∙ ticked-phase id l

  generated-phase :
      (id : ℕ) (intent : Intent) (r : Err ⊎ ℕ) (l : Loop)
      → phase_of (replay_generated config id intent r l).0 ≡ phase_of l
  generated-phase id intent (inl e) l = refl
  generated-phase id intent (inr payload) l = sync-phase id _ l

  then-phase :
      (p : Phase) (o : Loop × Option Err) (go : Loop → Loop × Option Err)
      → phase_of o.0 ≡ p
      → ((l : Loop) → phase_of (go l).0 ≡ phase_of l)
      → phase_of (then_go o go).0 ≡ p
  then-phase p (l, none) go e h = h l ∙ e
  then-phase p (l, some x) go e h = e

  replay-phase :
      (now id : ℕ) (intents : List Intent) (l : Loop)
      → phase_of (replay config now id intents l).0 ≡ phase_of l
  unfolding replay
  replay-phase now id [] l = refl
  replay-phase now id (intent ∷ rest) l =
      then-phase (phase_of l) (replay_generated config id intent (intent.sub_gen now) l) _
        (generated-phase id intent (intent.sub_gen now) l) (λ l'. replay-phase now id rest l')

  hook-phase :
      (id : ℕ) (hook : Hook) (l : Loop) → phase_of (run_hook config id hook l).0 ≡ phase_of l
  unfolding run_hook
  hook-phase id (returns e) l = refl
  hook-phase id (writes frame next) l =
      let sent = replayer_send config id frame l in
      hook-phase id (next sent.1) sent.0 ∙ sync-phase id (replayer_frame frame) l

  ready-phase :
      (id attempt : ℕ) (l : Loop) (on_ready : Option (ℕ → ℕ → Hook))
      → phase_of (on_ready_hook config on_ready id attempt l).0 ≡ phase_of l
  ready-phase id attempt l none = refl
  ready-phase id attempt l (some go) = hook-phase id (go id attempt) l

  activate-phase :
      (now id attempt : ℕ) (l : Loop) → phase_of (activate config now id attempt l).0 ≡ phase_of l
  unfolding activate
  activate-phase now id attempt l =
      then-phase (phase_of l) (replay config now id (Intents.snapshot l.store) l) _
        (replay-phase now id (Intents.snapshot l.store) l)
        (λ l'. ready-phase id attempt l' config.on_ready)

  freed-phase :
      (live : Option ℕ) (l : Loop)
      → phase_of (release live l) ≡ record (phase_of l) { live = false; routed = false }
  freed-phase none l = refl
  freed-phase (some id) l =
      ap (λ (p : Phase). record p { live = false; routed = false }) (dispose-phase id l)

  release-phase :
      (l : Loop) → phase_of (release_live l) ≡ record (phase_of l) { live = false; routed = false }
  unfolding release_live
  release-phase l = freed-phase l.live l

  pub schedule-phase :
      (attempt : ℕ) (l : Loop) → phase_of (schedule_reconnect attempt l) ≡ scheduled (phase_of l)
  unfolding schedule_reconnect
  schedule-phase attempt l = elim (Bool-cases (l.waiting_reconnect || l.cancelled)) [
    | inl stays ↦
        if_true (λ x. phase_of x ≡ scheduled (phase_of l)) (l.waiting_reconnect || l.cancelled) _ _
          stays
          (sym (if_true (λ x. x ≡ phase_of l) (l.waiting_reconnect || l.cancelled) _ _ stays refl))
    | inr waits ↦
        if_false (λ x. phase_of x ≡ scheduled (phase_of l)) (l.waiting_reconnect || l.cancelled) _ _
          waits
          (sym (
            if_false
              (λ (x : Phase).
                x ≡ record (phase_of l) { waiting = true; timers = suc (length l.timers) })
              (l.waiting_reconnect || l.cancelled) _ _ waits refl))
  ]

  pub backoff-phase :
      (e : Err) (attempt : ℕ) (l : Loop)
      → phase_of (enter_backoff e attempt l) ≡ scheduled (released (phase_of l))
  unfolding enter_backoff
  backoff-phase e attempt l =
      schedule-phase attempt
        (with_state ConnState.reconnecting (release_live (emit (ConnEvent.disconnected e) l)))
      ∙ ap (λ (p : Phase). scheduled (record p { up = false }))
          (release-phase (emit (ConnEvent.disconnected e) l))

  activated-phase :
      (attempt : ℕ) (p : Phase) (o : Loop × Option Err)
      → phase_of o.0 ≡ p
      → (phase_of (activated attempt o) ≡ scheduled (released p))
        ⊎ (phase_of (activated attempt o) ≡ opened p)
  activated-phase attempt p (l, some e) same =
      inl (backoff-phase e (attempt + 1) l ∙ ap (λ q. scheduled (released q)) same)
  activated-phase attempt p (l, none) same = inr (ap opened same)

  pub dialed-phase :
      (now attempt : ℕ) (outcome : Option Err) (l : Loop)
      → IsDialed (phase_of l) (phase_of (dialed config now attempt outcome l))
  dialed-phase now attempt (some e) l = inl (schedule-phase (attempt + 1) l)
  dialed-phase now attempt none l = inr (
      activated-phase attempt (phase_of (with_transport l))
        (activate config now l.next_transport attempt (with_transport l))
        (activate-phase now l.next_transport attempt (with_transport l)))
