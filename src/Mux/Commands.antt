-- ===== src/Mux/Commands.antt =====
-- mux.go of internal/core/pkg/wsrefact_v6: the handlers of subscribe and unsubscribe commands.
use custom_hts_legacy.Prelude.{
  ℕ, true, none, some, [], String, if◌then◌else◌, get_elem?, set, string_eq,
}
use custom_hts_legacy.Prelude.Int.{ℤ}
use custom_hts_legacy.Prelude.Maps.{lookup, insert, delete}
use custom_hts_legacy.Mux.Types.{
  Result, ok, err, subscription_exists, subscription_not_found, queue_full, WriteIntent,
  WriteIntentAction, UserCommand, UserCommandKind, IoCommand, IoCommandType, MuxSubscription,
  Worker, Mux, try_send, resolved, is_connected,
}
use custom_hts_legacy.Mux.Keys.{remove_key, insert_key}
use custom_hts_legacy.Mux.Placement.{pick_worker}

-- A write through `&m.workers[i]`. (An index out of range is a panic in Go: `pickWorker` answers
-- with an index in range, and the workers are never added or removed.)
unfoldable pub update_worker : ℕ → (Worker → Worker) → Mux → Mux
update_worker i f m = elim (get_elem? m.workers i) [
  | none ↦ m
  | some w ↦ record m { workers = set m.workers i (f w) }
]

-- `removeDesiredKey`: the index of the key, or -1.
unfoldable pub removed_index : ℕ → String → Mux → ℤ
unfolding remove_key
removed_index i key m = elim (get_elem? m.workers i) [
  | none ↦ (remove_key [] key).1
  | some w ↦ (remove_key w.desired_keys key).1
]

unfoldable pub remove_desired_key : ℕ → String → Mux → Mux
unfolding update_worker remove_key
remove_desired_key i key m =
    update_worker i (λ w. record w { desired_keys = (remove_key w.desired_keys key).0 }) m

unfoldable pub insert_desired_key : ℕ → String → ℤ → Mux → Mux
unfolding update_worker insert_key
insert_desired_key i key index m =
    update_worker i (λ w. record w { desired_keys = insert_key w.desired_keys key index }) m

abbrev pub write_command : WriteIntent → ℕ → IoCommand
write_command intent subscription = record {
  type = IoCommandType.write;
  intent = some intent;
  subscription = some subscription;
  dial_ctx = none;
  publish_write_failure = true;
}

-- The live write into the mailbox of worker `w`, at index `i`.
unfoldable pub offer_write : ℕ → Worker → WriteIntent → ℕ → Mux → Result Mux
unfolding try_send
offer_write i w intent subscription m =
    elim (try_send (write_command intent subscription) w.mailbox) [
      | none ↦ err queue_full
      | some b ↦ ok (record m { workers = set m.workers i (record w { mailbox = b }) })
    ]

abbrev pub subscribe_intent : String → WriteIntent
subscribe_intent key = record { key = key; action = WriteIntentAction.subscribe }

-- `handleSubscribe` with the chosen worker. The source appends the key to the local slice `keys`,
-- which it does not store: the desired keys of the worker stay as they are.
unfoldable pub place_subscription : UserCommand → ℕ → Worker → Mux → Mux
unfolding offer_write remove_desired_key resolved
place_subscription command i w m =
    if is_connected w.state
    then (elim (offer_write i w (subscribe_intent command.key) command.subscription recorded) [
      | ok m' ↦ m'
      | err e ↦ resolved command.subscription (some e) (
          remove_desired_key i command.key
            (record recorded { subscriptions = delete command.key recorded.subscriptions }))
    ])
    else resolved command.subscription none recorded
  where
    recorded : Mux
    recorded = record m {
      subscriptions =
          insert command.key (record { worker_index = i; intent = subscribe_intent command.key })
            m.subscriptions;
    }

unfoldable pub subscribe_at : UserCommand → ℕ → Mux → Mux
unfolding place_subscription
subscribe_at command i m = elim (get_elem? m.workers i) [
  | none ↦ m
  | some w ↦ place_subscription command i w m
]

unfoldable pub subscribe_placed : UserCommand → Result ℕ → Mux → Mux
unfolding subscribe_at resolved
subscribe_placed command (err e) m = resolved command.subscription (some e) m
subscribe_placed command (ok i) m = subscribe_at command i m

unfoldable pub handle_subscribe : UserCommand → Mux → Mux
unfolding subscribe_placed resolved pick_worker
handle_subscribe command m = elim (lookup command.key m.subscriptions) [
  | some _ ↦ resolved command.subscription (some subscription_exists) m
  | none ↦ subscribe_placed command (pick_worker m.placement_policy command.key m.workers) m
]

-- `handleUnsubscribe` after the deletion, on the worker as the deletion left it: `entry` and `index`
-- are what was deleted.
unfoldable pub retract_subscription : UserCommand → MuxSubscription → ℤ → Worker → Mux → Mux
unfolding offer_write insert_desired_key resolved
retract_subscription command entry index w m =
    if is_connected w.state
    then (elim (offer_write entry.worker_index w
        (record (entry.intent) { action = WriteIntentAction.unsubscribe }) command.subscription m) [
          | ok m' ↦ m'
          | err e ↦ resolved command.subscription (some e) (
              insert_desired_key entry.worker_index command.key index
                (record m { subscriptions = insert command.key entry m.subscriptions }))
        ])
    else resolved command.subscription none m

unfoldable pub unsubscribe_at : UserCommand → MuxSubscription → ℤ → Mux → Mux
unfolding retract_subscription
unsubscribe_at command entry index m = elim (get_elem? m.workers entry.worker_index) [
  | none ↦ m
  | some w ↦ retract_subscription command entry index w m
]

unfoldable pub unsubscribe_entry : UserCommand → MuxSubscription → Mux → Mux
unfolding unsubscribe_at remove_desired_key removed_index
unsubscribe_entry command entry m =
    unsubscribe_at command entry (removed_index entry.worker_index command.key m) (
      remove_desired_key entry.worker_index command.key
        (record m { subscriptions = delete command.key m.subscriptions }))

unfoldable pub handle_unsubscribe : UserCommand → Mux → Mux
unfolding unsubscribe_entry resolved
handle_unsubscribe command m = elim (lookup command.key m.subscriptions) [
  | none ↦ resolved command.subscription (some subscription_not_found) m
  | some entry ↦ unsubscribe_entry command entry m
]

unfoldable pub dispatch_command : UserCommandKind → UserCommand → Mux → Mux
unfolding handle_subscribe handle_unsubscribe
dispatch_command UserCommandKind.subscribe command m = handle_subscribe command m
dispatch_command UserCommandKind.unsubscribe command m = handle_unsubscribe command m

-- `handleCommand`.
unfoldable pub handle_command : UserCommand → Mux → Mux
unfolding dispatch_command
handle_command command m = dispatch_command command.kind command m
