-- ===== src/Mux/Tests.antt =====
-- Runs of the multiplexer model of internal/core/pkg/wsrefact_v6 on concrete inputs.
use custom_hts_legacy.Prelude.{
  ℕ, zero, suc, sym, ◌≡◌, ◌<◌, refl, ◌⊎◌, inl, true, false, none, some, List, [], ◌∷◌, ◌++◌, map,
  String, string_eq, nat_eq, arith, get_elem?, Elem, All, length,
}
use custom_hts_legacy.Prelude.Int.{pos}
use custom_hts_legacy.Prelude.Maps.{lookup, insert, delete}
use custom_hts_legacy.Mux.Types.{
  mux_stopped, encode_write, foreign, ok, err, MuxConfig, UserCommand, UserCommandKind, IoCommand,
  IoWorkerEvent, IoWorkerEventKind, MuxSubscription, MuxWorkerState, MuxWorkerSnapshot, MuxRunState,
  Worker, Mux, Err, subscription_exists,
}
use custom_hts_legacy.Mux.Slot.{
  Slot, replay_command, ping_command, handle_worker_ready, start_reconnect, handle_ping_tick,
}
use custom_hts_legacy.Mux.Placement.{default_placement_policy, pick_worker}
use custom_hts_legacy.Mux.Commands.{
  subscribe_intent, write_command, handle_subscribe, handle_unsubscribe,
}
use custom_hts_legacy.Mux.Loop.{Input, command, event, receive, run}
use custom_hts_legacy.Mux.Keys.{Distinct}
use custom_hts_legacy.Mux.Least.{Placed, default_placement_policy-Placed}
use custom_hts_legacy.Mux.Subscribing
use custom_hts_legacy.Mux.Subscribing.{Refused, RefusedWith, handle_subscribe_outcome}
use custom_hts_legacy.Mux.Invariant.{IsConsistent, desired_of}
use custom_hts_legacy.Mux.Outcomes.{
  Unsubscribed, Served, handle_unsubscribe_outcome, refused_unsubscribe_restores,
  received_command-Served,
}
use custom_hts_legacy.Mux.Replay.{replays, handle_worker_ready-replays, subscribed_not_replayed}
use custom_hts_legacy.Mux.Config.{new_mux, initial_mux, new_mux-run_safe}
use custom_hts_legacy.Mux.Client.{Client, subscribe, unsubscribe}
use custom_hts_legacy.Mux.Lifecycle.{lifecycle, link}
use custom_hts_legacy.Mux.Fatal.{FatalOnce}
use custom_hts_legacy.Mux.Heartbeat.{BeatsConnected}
use custom_hts_legacy.Mux.Ticks.{Happening, ready, ticks, takes, happens, stale_tick_dropped}

abbrev idle_worker : Worker
idle_worker = record {
  mailbox = record { capacity = 2; queue = []; closed = false };
  state = MuxWorkerState.connected;
  desired_keys = [];
  dial_cancel = none;
  ping_interval = pos 30;
  ping_cancel = none;
  heartbeat_epoch = 0;
}

-- Worker 1 is connected, worker 0 dials.
abbrev two_workers : Mux
two_workers = record {
  workers = record idle_worker { state = MuxWorkerState.connecting } ∷ idle_worker ∷ [];
  subscriptions = [];
  placement_policy = default_placement_policy;
  shutdown_err = some mux_stopped;
  state = MuxRunState.running;
  fatal_ch = [];
  fatal_closed = false;
  results = [];
  contexts = record { next = 0; cancelled = []; tickers = [] };
}

abbrev made : List Worker
made =
    record idle_worker {
      state = MuxWorkerState.connecting;
      mailbox = record { capacity = 4; queue = []; closed = false };
    }
    ∷ []

abbrev open_client : Client
open_client = record {
  stopped = false;
  fatal_err = none;
  capacity = 1;
  commands = [];
  closed = false;
  next_subscription = 0;
}

abbrev samsung : UserCommand
samsung = record { kind = UserCommandKind.subscribe; key = "005930"; subscription = 7 }

-- Worker 1 has the key among its desired keys.
abbrev with_key : List IoCommand → Mux
with_key queue = record two_workers {
  workers =
      record idle_worker { state = MuxWorkerState.connecting }
      ∷ record idle_worker {
        desired_keys = "005930" ∷ [];
        mailbox = record { capacity = 2; queue = queue; closed = false };
      }
      ∷ [];
  subscriptions = ("005930", record { worker_index = 1; intent = subscribe_intent "005930" }) ∷ [];
}

abbrev drop_samsung : UserCommand
drop_samsung = record { kind = UserCommandKind.unsubscribe; key = "005930"; subscription = 8 }

abbrev full_queue : List IoCommand
full_queue = ping_command ∷ ping_command ∷ []

two_workers-IsConsistent : IsConsistent two_workers
unfolding lookup
two_workers-IsConsistent = record {
  in_range = λ k x h. cc;
  intents = λ k x h. cc;
  desired = λ i ks k at m. absurd (no_key i ks k at m);
  distinct = no_keys;
}
  where
    no_key :
        (i : ℕ) (ks : List String) (k : String)
        → get_elem? (map desired_of two_workers.workers) i ≡ some ks
        → Elem k ks
        → ⊥
    no_key zero ks k at m = let e : [] ≡ ks = cc in rw (sym e) at m
    no_key (suc zero) ks k at m = let e : [] ≡ ks = cc in rw (sym e) at m
    no_key (suc (suc i)) ks k at m = cc

    no_keys :
        (i : ℕ) (ks : List String)
        → get_elem? (map desired_of two_workers.workers) i ≡ some ks
        → Distinct ks
    no_keys zero ks at = let e : [] ≡ ks = cc in rw (sym e) tt
    no_keys (suc zero) ks at = let e : [] ≡ ks = cc in rw (sym e) tt
    no_keys (suc (suc i)) ks at = cc

with_key-IsConsistent : (queue : List IoCommand) → IsConsistent (with_key queue)
unfolding lookup
with_key-IsConsistent queue = record {
  in_range = λ k x h. ground arith;
  intents = λ k x h. ground (arith, string_eq.beq_iff "005930" k);
  desired = has_entry;
  distinct = distinct_keys;
}
  where
    has_entry :
        (i : ℕ) (ks : List String) (k : String)
        → get_elem? (map desired_of (with_key queue).workers) i ≡ some ks
        → Elem k ks
        → (x : MuxSubscription) × (lookup k (with_key queue).subscriptions ≡ some x)
          × (x.worker_index ≡ i)
    has_entry zero ks k at m = let e : [] ≡ ks = cc in absurd (rw (sym e) at m)
    has_entry (suc zero) ks k at m =
        let e : "005930" ∷ [] ≡ ks = cc in
        let m' : Elem k ("005930" ∷ []) = rw (sym e) at m in
        (
          record { worker_index = 1; intent = subscribe_intent "005930" },
          ground (arith, string_eq.beq_iff "005930" k),
          refl,
        )
    has_entry (suc (suc i)) ks k at m = cc

    distinct_keys :
        (i : ℕ) (ks : List String)
        → get_elem? (map desired_of (with_key queue).workers) i ≡ some ks
        → Distinct ks
    distinct_keys zero ks at = let e : [] ≡ ks = cc in rw (sym e) tt
    distinct_keys (suc zero) ks at = let e : "005930" ∷ [] ≡ ks = cc in rw (sym e) ((λ m. m), tt)
    distinct_keys (suc (suc i)) ks at = cc

placed_on_connected : pick_worker default_placement_policy "005930" two_workers.workers ≡ ok 1
unfolding pick_worker default_placement_policy
placed_on_connected = refl

subscribed_worker :
    get_elem? (handle_subscribe samsung two_workers).workers 1
    ≡ some (record idle_worker {
      mailbox = record {
        capacity = 2;
        queue = write_command (subscribe_intent "005930") 7 ∷ [];
        closed = false;
      };
    })
unfolding handle_subscribe lookup insert default_placement_policy
subscribed_worker = refl

abbrev two_snapshots : List MuxWorkerSnapshot
two_snapshots =
    record { index = 0; state = MuxWorkerState.connecting; subscription_count = 0 }
    ∷ record { index = 1; state = MuxWorkerState.connected; subscription_count = 4 }
    ∷ []

default_placement_policy-Placed_example :
    Placed two_snapshots (default_placement_policy "005930" two_snapshots)
default_placement_policy-Placed_example = default_placement_policy-Placed "005930" two_snapshots

handle_subscribe_outcome_example :
    let m' = handle_subscribe samsung two_workers in
    ((x : MuxSubscription) × (lookup "005930" two_workers.subscriptions ≡ some x)
      × RefusedWith subscription_exists 7 two_workers m')
    ⊎ ((e : Err) × (lookup "005930" two_workers.subscriptions ≡ none)
        × (pick_worker default_placement_policy "005930" two_workers.workers ≡ err e)
        × RefusedWith e 7 two_workers m')
    ⊎ ((i : ℕ) × (w : Worker) × (lookup "005930" two_workers.subscriptions ≡ none)
        × (pick_worker default_placement_policy "005930" two_workers.workers ≡ ok i)
        × (get_elem? two_workers.workers i ≡ some w)
        × Subscribing.Placed samsung i w two_workers m')
unfolding lookup
handle_subscribe_outcome_example = handle_subscribe_outcome samsung two_workers refl

handle_unsubscribe_outcome_example :
    let m' = handle_unsubscribe drop_samsung (with_key []) in
    Refused 8 (with_key []) m'
    ⊎ ((x : MuxSubscription) × Unsubscribed drop_samsung x (with_key []) m')
unfolding lookup
handle_unsubscribe_outcome_example =
    handle_unsubscribe_outcome drop_samsung (with_key []) (with_key-IsConsistent []) refl

refused_unsubscribe_restores_example :
    (handle_unsubscribe drop_samsung (with_key full_queue)).workers ≡ (with_key full_queue).workers
unfolding lookup handle_unsubscribe insert delete
refused_unsubscribe_restores_example =
    refused_unsubscribe_restores drop_samsung (with_key full_queue)
      (record { worker_index = 1; intent = subscribe_intent "005930" }) _
      (with_key-IsConsistent full_queue) refl refl refl (inl refl) refl

received_command-Served_example : Served 7 (receive (command samsung) two_workers)
unfolding lookup
received_command-Served_example =
    received_command-Served samsung two_workers two_workers-IsConsistent refl

handle_worker_ready-replays_example :
    let w' =
      (handle_worker_ready (with_key []).subscriptions 1 (record {
        worker = record idle_worker { desired_keys = "005930" ∷ [] };
        contexts = two_workers.contexts;
      })).worker in
    (w'.mailbox.queue ≡ replays ("005930" ∷ [])) × (w'.state ≡ MuxWorkerState.connected)
handle_worker_ready-replays_example =
    handle_worker_ready-replays (with_key []) 1 _ (with_key-IsConsistent []) refl refl

subscribed_entry :
    lookup "005930" (handle_subscribe samsung two_workers).subscriptions
    ≡ some (record { worker_index = 1; intent = subscribe_intent "005930" })
unfolding handle_subscribe lookup insert default_placement_policy
subscribed_entry = refl

abbrev chosen_worker : Worker
chosen_worker = record idle_worker {
  mailbox = record {
    capacity = 2;
    queue = write_command (subscribe_intent "005930") 7 ∷ [];
    closed = false;
  };
}

subscribed_not_replayed_example :
    let m' = handle_subscribe samsung two_workers in
    let w' =
      (handle_worker_ready m'.subscriptions 1
        (record { worker = chosen_worker; contexts = m'.contexts })).worker in
    (subscribe_intent "005930" ≡ subscribe_intent "005930")
    × (1 < length m'.workers)
    × (Elem {A = String} "005930" [] → ⊥)
    × ((told : List IoCommand) × (w'.mailbox.queue ≡ chosen_worker.mailbox.queue ++ told)
        × (Elem (replay_command (subscribe_intent "005930")) told → ⊥))
unfolding lookup
subscribed_not_replayed_example =
    subscribed_not_replayed samsung two_workers
      (record { worker_index = 1; intent = subscribe_intent "005930" }) 1 chosen_worker
      two_workers-IsConsistent refl subscribed_entry subscribed_worker refl

abbrev encode_failed : IoWorkerEvent
encode_failed = record {
  kind = IoWorkerEventKind.write_failed;
  worker_index = 1;
  intent = some (subscribe_intent "005930");
  error = some (encode_write (foreign 3));
  epoch = 0;
}

abbrev beating : Slot
beating = record {
  worker = record idle_worker { ping_cancel = some 3 };
  contexts = record { next = 4; cancelled = []; tickers = [] };
}

-- The old tick comes again before and after the worker is connected again.
abbrev afterwards : List Happening
afterwards = ticks 0 ∷ takes ∷ ready [] ∷ takes ∷ []

stale_tick_dropped_example :
    let u = happens 0 afterwards (start_reconnect beating) in
    let t = handle_worker_ready [] 0 (start_reconnect beating) in
    (handle_ping_tick 0 u ≡ u)
    × (length t.worker.mailbox.queue < t.worker.mailbox.capacity
        → (handle_ping_tick t.worker.heartbeat_epoch t).worker.mailbox.queue
          ≡ t.worker.mailbox.queue ++ (ping_command ∷ []))
    × Elem 3 t.contexts.cancelled
stale_tick_dropped_example =
    stale_tick_dropped afterwards [] 0 3 beating refl refl (omega arith) refl (omega arith)

abbrev one_worker : MuxConfig
one_worker = record {
  workers =
      record {
        write_encoder = some (λ intent. ok (record { payload = []; message_type = 1 }));
        has_dialer = true;
        url = "ws://localhost";
        queue_size = pos 4;
        default_write_timeout = pos 5;
        ping_interval = pos 30;
      }
      ∷ [];
  queue_size = pos 8;
  placement_policy = none;
}

new_mux-run_safe_example :
    let m =
      run
        (Input.takes 0 ∷ command samsung ∷ event encode_failed ∷ [])
        (initial_mux one_worker made) in
    IsConsistent m × FatalOnce (lifecycle m) × All BeatsConnected (map link m.workers)
unfolding new_mux
new_mux-run_safe_example =
    new_mux-run_safe one_worker (initial_mux one_worker made)
      (Input.takes 0 ∷ command samsung ∷ event encode_failed ∷ []) refl
