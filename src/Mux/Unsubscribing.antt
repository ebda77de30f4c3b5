-- ===== src/Mux/Unsubscribing.antt =====
-- The unsubscribe handler of internal/core/pkg/wsrefact_v6, by cases.
use custom_hts_legacy.Prelude.{
  ℕ, ◌≡◌, refl, ◌⊎◌, inl, inr, true, false, none, some, String, Bool-cases, string_eq, nat_eq,
  get_elem?, set, get_elem?-set_self, get_elem?-lt, set-set, ◌∙◌,
}
use mathlib.Core.Path.{ap₂}
use custom_hts_legacy.Prelude.Int.{ℤ}
use custom_hts_legacy.Prelude.Maps.{insert, delete}
use custom_hts_legacy.Mux.Types.{
  queue_full, WriteIntent, WriteIntentAction, UserCommand, MuxSubscription, Worker, Mux, send,
  resolved, is_connected,
}
use custom_hts_legacy.Mux.Keys.{remove_key, insert_key}
use custom_hts_legacy.Mux.Commands.{
  update_worker, remove_desired_key, insert_desired_key, removed_index, write_command,
  retract_subscription, unsubscribe_at, unsubscribe_entry,
}
use custom_hts_legacy.Mux.Subscribing.{offer_write-cases}

-- A write through the pointer to a worker that there is.
update_worker-at :
    (i : ℕ) (f : Worker → Worker) (m : Mux) {w : Worker}
    → get_elem? m.workers i ≡ some w
    → update_worker i f m ≡ record m { workers = set m.workers i (f w) }
unfolding update_worker
update_worker-at i f m at = rw (at, update_worker) refl

abbrev pub unsubscribe_intent : MuxSubscription → WriteIntent
unsubscribe_intent x = record (x.intent) { action = WriteIntentAction.unsubscribe }

-- The worker of an entry without the key.
abbrev pub without : Worker → String → Worker
without w key = record w { desired_keys = (remove_key w.desired_keys key).0 }

-- The mux without the entry.
abbrev pub removed : String → ℕ → Worker → Mux → Mux
removed key i w m = record m {
  subscriptions = delete key m.subscriptions;
  workers = set m.workers i (without w key);
}

-- The mux with the entry back in its place.
abbrev pub restored : String → MuxSubscription → Worker → Mux → Mux
restored key x w m =
    let (rest, index) = remove_key w.desired_keys key in
    record m {
      subscriptions = insert key x (delete key m.subscriptions);
      workers =
          set m.workers x.worker_index (record w { desired_keys = insert_key rest key index });
    }

-- What an unsubscribe command for an entry comes to, with the worker of the entry.
abbrev pub Retracted : UserCommand → MuxSubscription → Worker → Mux → Mux → Type 0
Retracted c x w m m' =
    ((is_connected w.state ≡ false)
      × (m' ≡ resolved c.subscription none (removed c.key x.worker_index w m)))
    ⊎ ((is_connected w.state ≡ true)
        × (m' ≡ resolved c.subscription (some queue_full) (restored c.key x w m)))
    ⊎ ((is_connected w.state ≡ true)
        × (m' ≡ record m {
          subscriptions = delete c.key m.subscriptions;
          workers = set m.workers x.worker_index (record (without w c.key) {
            mailbox = send (write_command (unsubscribe_intent x) c.subscription) w.mailbox;
          });
        }))

remove_desired_key-at :
    (i : ℕ) (key : String) (m : Mux) {w : Worker}
    → get_elem? m.workers i ≡ some w
    → remove_desired_key i key m ≡ record m { workers = set m.workers i (without w key) }
unfolding remove_desired_key
remove_desired_key-at i key m at = update_worker-at i _ m at

removed_index-at :
    (i : ℕ) (key : String) (m : Mux) {w : Worker}
    → get_elem? m.workers i ≡ some w
    → removed_index i key m ≡ (remove_key w.desired_keys key).1
unfolding removed_index
removed_index-at i key m at = rw (at, removed_index) refl

insert_desired_key-at :
    (i : ℕ) (key : String) (index : ℤ) (m : Mux) {w : Worker}
    → get_elem? m.workers i ≡ some w
    → insert_desired_key i key index m ≡ record m {
      workers = set m.workers i (record w { desired_keys = insert_key w.desired_keys key index });
    }
unfolding insert_desired_key
insert_desired_key-at i key index m at = update_worker-at i _ m at

there :
    (key : String) (i : ℕ) (w : Worker) (m : Mux)
    → get_elem? m.workers i ≡ some w
    → get_elem? (removed key i w m).workers i ≡ some (without w key)
there key i w m at = get_elem?-set_self m.workers i _ (get_elem?-lt m.workers i at)

unsubscribe_at-eq :
    (c : UserCommand) (x : MuxSubscription) (index : ℤ) (w : Worker) (m : Mux)
    → get_elem? m.workers x.worker_index ≡ some w
    → unsubscribe_at c x index m ≡ retract_subscription c x index w m
unfolding unsubscribe_at
unsubscribe_at-eq c x index w m at = rw (at, unsubscribe_at) refl

unsubscribe_entry-eq :
    (c : UserCommand) (x : MuxSubscription) (w : Worker) (m : Mux)
    → get_elem? m.workers x.worker_index ≡ some w
    → unsubscribe_entry c x m
      ≡ retract_subscription c x
          (remove_key w.desired_keys c.key).1
          (without w c.key)
          (removed c.key x.worker_index w m)
unfolding unsubscribe_entry
unsubscribe_entry-eq c x w m at =
    ap₂ (unsubscribe_at c x) (removed_index-at x.worker_index c.key m at) (
      remove_desired_key-at x.worker_index c.key
        (record m { subscriptions = delete c.key m.subscriptions }) at)
    ∙ unsubscribe_at-eq c x _ _ _ (there c.key x.worker_index w m at)

retract_subscription-Retracted :
    (c : UserCommand) (x : MuxSubscription) (w : Worker) (m : Mux)
    → get_elem? m.workers x.worker_index ≡ some w
    → Retracted c x w m (
        retract_subscription c x
          (remove_key w.desired_keys c.key).1
          (without w c.key)
          (removed c.key x.worker_index w m))
unfolding retract_subscription
retract_subscription-Retracted c x w m at = elim (Bool-cases (is_connected w.state)) [
  | inr off ↦ inl (off, rw (off, retract_subscription) refl)
  | inl on ↦
      elim (offer_write-cases x.worker_index (without w c.key) (unsubscribe_intent x) c.subscription
        (removed c.key x.worker_index w m)) [
          | inl (_, full) ↦ inr (
              inl (
                on,
                rw (on, retract_subscription, full)
                    (rw
                      (
                        insert_desired_key-at x.worker_index c.key
                            (remove_key w.desired_keys c.key).1
                            (record (removed c.key x.worker_index w m) {
                              subscriptions = insert c.key x (delete c.key m.subscriptions);
                            })
                            (there c.key x.worker_index w m at),
                        set-set m.workers x.worker_index,
                      )
                      refl),
              ))
          | inr (room, sent) ↦ inr (
              inr (
                on,
                rw (on, retract_subscription, sent) (rw (set-set m.workers x.worker_index) refl),
              ))
        ]
]

pub unsubscribe_entry-Retracted :
    (c : UserCommand) (x : MuxSubscription) (w : Worker) (m : Mux)
    → get_elem? m.workers x.worker_index ≡ some w
    → Retracted c x w m (unsubscribe_entry c x m)
unsubscribe_entry-Retracted c x w m at =
    rw (unsubscribe_entry-eq c x w m at) (retract_subscription-Retracted c x w m at)
