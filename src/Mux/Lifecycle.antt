-- ===== src/Mux/Lifecycle.antt =====
-- What of internal/core/pkg/wsrefact_v6/mux.go leaves the life cycle of the mux alone.
use custom_hts_legacy.Prelude.{
  ℕ, zero, suc, ◌≡◌, refl, ap, inl, inr, Option, some, List, string_eq, nat_eq, get_elem?, set,
  Option-cases, Bool-cases, ◌∙◌, map, map-set, set-get_elem?, get_elem?-map,
}
use custom_hts_legacy.Prelude.Int.{ℤ}
use custom_hts_legacy.Prelude.Maps.{lookup, insert, delete}
use custom_hts_legacy.Mux.Types.{
  Err, WriteIntentAction, UserCommand, UserCommandKind, IoWorkerEvent, IoWorkerEventKind,
  MuxSubscription, MuxWorkerState, Contexts, Worker, Mux, MuxRunState, resolved, is_connected,
}
use custom_hts_legacy.Mux.Keys.{remove_key, insert_key}
use custom_hts_legacy.Mux.Slot.{
  Slot, start_connect, start_reconnect, handle_worker_ready, handle_ping_tick,
}
use custom_hts_legacy.Mux.Commands.{
  update_worker, remove_desired_key, insert_desired_key, removed_index, subscribe_intent,
  place_subscription, subscribe_at, subscribe_placed, handle_subscribe, retract_subscription,
  unsubscribe_at, unsubscribe_entry, handle_unsubscribe, dispatch_command,
}
use custom_hts_legacy.Mux.Loop.{at_worker, dispatch_event, start_workers}
use custom_hts_legacy.Mux.Placement.{pick_worker}
use custom_hts_legacy.Mux.Least.{Result-cases}
use custom_hts_legacy.Mux.Subscribing.{offer_write-cases}

-- The fields of the mux that belong to its life cycle.
abbrev pub lifecycle : Mux → MuxRunState × List Err × Option Err
lifecycle m = (m.state, m.fatal_ch, m.shutdown_err)

-- What of a worker only its connection changes.
pub record Link : Type 0 where
  pub state : MuxWorkerState
  pub dial_cancel : Option ℕ
  pub ping_interval : ℤ
  pub ping_cancel : Option ℕ
  pub heartbeat_epoch : ℕ

abbrev pub link : Worker → Link
link w = record {
  state = w.state;
  dial_cancel = w.dial_cancel;
  ping_interval = w.ping_interval;
  ping_cancel = w.ping_cancel;
  heartbeat_epoch = w.heartbeat_epoch;
}

-- What a command leaves alone.
pub record Frame : Type 0 where
  pub life : MuxRunState × List Err × Option Err
  pub links : List Link
  pub contexts : Contexts

abbrev pub frame : Mux → Frame
frame m = record { life = lifecycle m; links = map link m.workers; contexts = m.contexts }

-- A write to a worker that leaves its link alone.
frame-set :
    (i : ℕ) (w w' : Worker) (m : Mux)
    → get_elem? m.workers i ≡ some w
    → link w' ≡ link w
    → frame (record m { workers = set m.workers i w' }) ≡ frame m
frame-set i w w' m at same =
    ap
      (λ (links : List Link).
        let f : Frame = record { life = lifecycle m; links = links; contexts = m.contexts } in f)
      (map-set link m.workers i w'
        ∙ ap (set (map link m.workers) i) same
        ∙ set-get_elem? (map link m.workers) i (get_elem?-map link m.workers i at))

frame-update_worker :
    (i : ℕ) (f : Worker → Worker) (m : Mux)
    → ((w : Worker) → link (f w) ≡ link w)
    → frame (update_worker i f m) ≡ frame m
unfolding update_worker
frame-update_worker i f m keep = elim (Option-cases (get_elem? m.workers i)) [
  | inl e ↦ rw (e, update_worker) refl
  | inr (w, e) ↦ rw (e, update_worker) (frame-set i w (f w) m e (keep w))
]

frame-place_subscription :
    (c : UserCommand) (i : ℕ) (w : Worker) (m : Mux)
    → get_elem? m.workers i ≡ some w
    → frame (place_subscription c i w m) ≡ frame m
unfolding place_subscription resolved remove_desired_key
frame-place_subscription c i w m at = elim (Bool-cases (is_connected w.state)) [
  | inr off ↦ rw (off, place_subscription) refl
  | inl on ↦ elim (offer_write-cases i w (subscribe_intent c.key) c.subscription recorded) [
    | inl (_, full) ↦
        rw (on, place_subscription, full)
          (frame-update_worker i
            (λ w. record w { desired_keys = (remove_key w.desired_keys c.key).0 })
            (record m { subscriptions = delete c.key recorded.subscriptions }) (λ w. refl))
    | inr (room, sent) ↦ rw (on, place_subscription, sent) (frame-set i w _ recorded at refl)
  ]
]
  where
    recorded : Mux
    recorded = record m {
      subscriptions =
          insert c.key (record { worker_index = i; intent = subscribe_intent c.key })
            m.subscriptions;
    }

frame-handle_subscribe : (c : UserCommand) (m : Mux) → frame (handle_subscribe c m) ≡ frame m
unfolding handle_subscribe
frame-handle_subscribe c m = elim (Option-cases (lookup c.key m.subscriptions)) [
  | inr (x, there) ↦ rw (there, handle_subscribe) refl
  | inl absent ↦ elim (Result-cases (pick_worker m.placement_policy c.key m.workers)) [
    | inl (e, no_worker) ↦ rw (absent, no_worker, handle_subscribe) refl
    | inr (i, chosen) ↦ elim (Option-cases (get_elem? m.workers i)) [
      | inl off ↦ rw (absent, chosen, handle_subscribe, subscribe_placed, subscribe_at, off) refl
      | inr (w, at) ↦
          rw (absent, chosen, handle_subscribe, subscribe_placed, subscribe_at, at)
            (frame-place_subscription c i w m at)
    ]
  ]
]

frame-retract_subscription :
    (c : UserCommand) (x : MuxSubscription) (index : ℤ) (w : Worker) (m : Mux)
    → get_elem? m.workers x.worker_index ≡ some w
    → frame (retract_subscription c x index w m) ≡ frame m
unfolding retract_subscription resolved insert_desired_key
frame-retract_subscription c x index w m at = elim (Bool-cases (is_connected w.state)) [
  | inr off ↦ rw (off, retract_subscription) refl
  | inl on ↦
      elim (offer_write-cases x.worker_index w
        (record (x.intent) { action = WriteIntentAction.unsubscribe }) c.subscription m) [
          | inl (_, full) ↦
              rw (on, retract_subscription, full)
                (frame-update_worker x.worker_index
                  (λ w. record w { desired_keys = insert_key w.desired_keys c.key index })
                  (record m { subscriptions = insert c.key x m.subscriptions }) (λ w. refl))
          | inr (room, sent) ↦
              rw (on, retract_subscription, sent) (frame-set x.worker_index w _ m at refl)
        ]
]

frame-unsubscribe_at :
    (c : UserCommand) (x : MuxSubscription) (index : ℤ) (m : Mux)
    → frame (unsubscribe_at c x index m) ≡ frame m
unfolding unsubscribe_at
frame-unsubscribe_at c x index m = elim (Option-cases (get_elem? m.workers x.worker_index)) [
  | inl off ↦ rw (off, unsubscribe_at) refl
  | inr (w, at) ↦ rw (at, unsubscribe_at) (frame-retract_subscription c x index w m at)
]

frame-unsubscribe_entry :
    (c : UserCommand) (x : MuxSubscription) (m : Mux) → frame (unsubscribe_entry c x m) ≡ frame m
unfolding unsubscribe_entry remove_desired_key
frame-unsubscribe_entry c x m =
    frame-unsubscribe_at c x (removed_index x.worker_index c.key m) (
      remove_desired_key x.worker_index c.key
        (record m { subscriptions = delete c.key m.subscriptions }))
    ∙ frame-update_worker x.worker_index
        (λ w. record w { desired_keys = (remove_key w.desired_keys c.key).0 })
        (record m { subscriptions = delete c.key m.subscriptions }) (λ w. refl)

-- A command changes neither the life cycle of the mux, nor a connection, nor a context.
pub frame-dispatch_command :
    (kind : UserCommandKind) (c : UserCommand) (m : Mux)
    → frame (dispatch_command kind c m) ≡ frame m
unfolding dispatch_command
frame-dispatch_command UserCommandKind.subscribe c m = frame-handle_subscribe c m
frame-dispatch_command UserCommandKind.unsubscribe c m =
    elim (Option-cases (lookup c.key m.subscriptions)) [
      | inl absent ↦ rw (absent, handle_unsubscribe) refl
      | inr (x, here) ↦ rw (here, handle_unsubscribe) (frame-unsubscribe_entry c x m)
    ]

pub lifecycle-dispatch_command :
    (kind : UserCommandKind) (c : UserCommand) (m : Mux)
    → lifecycle (dispatch_command kind c m) ≡ lifecycle m
lifecycle-dispatch_command kind c m = ap (λ (f : Frame). f.life) (frame-dispatch_command kind c m)

pub lifecycle-at_worker :
    (i : ℕ) (f : Slot → Slot) (m : Mux) → lifecycle (at_worker i f m) ≡ lifecycle m
unfolding at_worker
lifecycle-at_worker i f m = elim (Option-cases (get_elem? m.workers i)) [
  | inl e ↦ rw (e, at_worker) refl
  | inr (w, e) ↦ rw (e, at_worker) refl
]

pub lifecycle-dispatch_event :
    (kind : IoWorkerEventKind) (e : IoWorkerEvent) (m : Mux)
    → lifecycle (dispatch_event kind e m).0 ≡ lifecycle m
unfolding dispatch_event
lifecycle-dispatch_event IoWorkerEventKind.connected e m =
    lifecycle-at_worker e.worker_index (handle_worker_ready m.subscriptions e.worker_index) m
lifecycle-dispatch_event IoWorkerEventKind.reconnected e m =
    lifecycle-at_worker e.worker_index (handle_worker_ready m.subscriptions e.worker_index) m
lifecycle-dispatch_event IoWorkerEventKind.connect_failed e m =
    lifecycle-at_worker e.worker_index start_reconnect m
lifecycle-dispatch_event IoWorkerEventKind.disconnected e m =
    lifecycle-at_worker e.worker_index start_reconnect m
lifecycle-dispatch_event IoWorkerEventKind.ping_tick e m =
    lifecycle-at_worker e.worker_index (handle_ping_tick e.epoch) m
lifecycle-dispatch_event IoWorkerEventKind.write_failed e m = refl

pub lifecycle-start_workers : (n i : ℕ) (m : Mux) → lifecycle (start_workers n i m) ≡ lifecycle m
unfolding start_workers
lifecycle-start_workers zero i m = refl
lifecycle-start_workers (suc n) i m =
    lifecycle-start_workers n (suc i) (at_worker i start_connect m)
    ∙ lifecycle-at_worker i start_connect m
