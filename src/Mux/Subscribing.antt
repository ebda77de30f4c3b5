-- ===== src/Mux/Subscribing.antt =====
-- The handlers of subscribe and unsubscribe commands of internal/core/pkg/wsrefact_v6: what becomes of
-- a command, and that a refused command changes no subscription.
use custom_hts_legacy.Prelude.{
  ℕ, ◌≡◌, refl, ◌⊎◌, inl, inr, false, none, some, List, [], ◌∷◌, ◌++◌, String, arith, Option-cases,
  Bool-cases, string_eq, nat_eq, ◌==◌, get_elem?, set, get_elem?-set_self, get_elem?-lt, length,
  ltb, ◌<◌, ◌≤◌, ltb→lt, true,
}
use custom_hts_legacy.Prelude.Maps.{
  lookup, insert, delete, lookup-insert, lookup-delete, lookup-insert_self, lookup-insert_ne,
}
use custom_hts_legacy.Prelude.Int.{ℤ}
use custom_hts_legacy.Mux.Types.{
  Err, ok, err, queue_full, subscription_exists, WriteIntent, UserCommand, IoCommand,
  MuxSubscription, Worker, Mux, try_send, send, resolved, is_connected,
}
use custom_hts_legacy.Mux.Commands.{
  update_worker, remove_desired_key, insert_desired_key, write_command, offer_write,
  subscribe_intent, place_subscription, subscribe_at, subscribe_placed, handle_subscribe,
}
use custom_hts_legacy.Mux.Placement.{pick_worker}
use custom_hts_legacy.Mux.Least.{pick_worker_in_range, Result-cases}
use custom_hts_legacy.Mux.Resolution.{lookup-resolve_fresh}

-- The two ends of a non-blocking write: the mailbox has no room, or it gets the command.
pub offer_write-cases :
    (i : ℕ) (w : Worker) (intent : WriteIntent) (sub : ℕ) (m : Mux)
    → ((w.mailbox.capacity ≤ length w.mailbox.queue)
        × (offer_write i w intent sub m ≡ err queue_full))
      ⊎ ((length w.mailbox.queue < w.mailbox.capacity)
          × (offer_write i w intent sub m
              ≡ ok (record m {
                workers =
                    set m.workers i
                      (record w { mailbox = send (write_command intent sub) w.mailbox });
              })))
unfolding offer_write send
offer_write-cases i w intent sub m =
    elim (Bool-cases (ltb (length w.mailbox.queue) w.mailbox.capacity)) [
      | inl room ↦ inr (ltb→lt _ _ room, rw (room, offer_write, try_send) refl)
      | inr full ↦ inl (ground arith, rw (full, offer_write, try_send) refl)
    ]

pub subscriptions-update_worker :
    (i : ℕ) (f : Worker → Worker) (m : Mux)
    → ((update_worker i f m).subscriptions ≡ m.subscriptions)
      × ((update_worker i f m).results ≡ m.results)
unfolding update_worker
subscriptions-update_worker i f m = elim (Option-cases (get_elem? m.workers i)) [
  | inl e ↦ rw (e, update_worker) (refl, refl)
  | inr (w, e) ↦ rw (e, update_worker) (refl, refl)
]

-- The handle has the error `e`, and the subscriptions are those of `m`.
abbrev pub RefusedWith : Err → ℕ → Mux → Mux → Type 0
RefusedWith e sub m m' =
    (lookup sub m'.results ≡ some (some e))
    × ((k : String) → lookup k m'.subscriptions ≡ lookup k m.subscriptions)

-- The handle has some error.
abbrev pub Refused : ℕ → Mux → Mux → Type 0
Refused sub m m' =
    (e : Err) × (lookup sub m'.results ≡ some (some e))
    × ((k : String) → lookup k m'.subscriptions ≡ lookup k m.subscriptions)

-- The handle has its result `nil`, with no write.
abbrev pub Accepted : ℕ → Mux → Type 0
Accepted sub m' = lookup sub m'.results ≡ some none

-- The handle has no result yet: it went to a worker with the write of `intent`, at the end of the mailbox.
abbrev pub HandedOver : ℕ → WriteIntent → ℕ → Mux → Mux → Type 0
HandedOver sub intent i m m' =
    (m'.results ≡ m.results)
    × ((w : Worker) × (q : List IoCommand) × (get_elem? m'.workers i ≡ some w)
        × (w.mailbox.queue ≡ q ++ (write_command intent sub ∷ [])))

pub subscriptions-remove_desired_key :
    (i : ℕ) (key : String) (m : Mux)
    → ((remove_desired_key i key m).subscriptions ≡ m.subscriptions)
      × ((remove_desired_key i key m).results ≡ m.results)
unfolding remove_desired_key
subscriptions-remove_desired_key i key m = subscriptions-update_worker i _ m

pub subscriptions-insert_desired_key :
    (i : ℕ) (key : String) (index : ℤ) (m : Mux)
    → ((insert_desired_key i key index m).subscriptions ≡ m.subscriptions)
      × ((insert_desired_key i key index m).results ≡ m.results)
unfolding insert_desired_key
subscriptions-insert_desired_key i key index m = subscriptions-update_worker i _ m

-- The key has its entry with worker `i`, and no other subscription has changed.
abbrev pub Entered : UserCommand → ℕ → Mux → Mux → Type 0
Entered c i m m' =
    (lookup c.key m'.subscriptions
      ≡ some (record { worker_index = i; intent = subscribe_intent c.key }))
    × ((k : String) → (c.key == k) ≡ false → lookup k m'.subscriptions ≡ lookup k m.subscriptions)

-- What becomes of a subscribe command for a new key that was given to worker `w` with index `i`: a worker that is
-- not connected gets the key and no write; a connected one gets the write, if its mailbox has room; else the command
-- is refused.
abbrev pub Placed : UserCommand → ℕ → Worker → Mux → Mux → Type 0
Placed c i w m m' =
    ((is_connected w.state ≡ false) × Entered c i m m' × Accepted c.subscription m')
    ⊎ ((is_connected w.state ≡ true)
        × (((length w.mailbox.queue < w.mailbox.capacity)
              × Entered c i m m'
              × HandedOver c.subscription (subscribe_intent c.key) i m m')
            ⊎ ((w.mailbox.capacity ≤ length w.mailbox.queue)
                × RefusedWith queue_full c.subscription m m')))

-- `Subscription.resolve` with an error, where the subscriptions are those of `m`.
refuse :
    (sub : ℕ) (e : Err) (m m' : Mux)
    → lookup sub m'.results ≡ none
    → ((k : String) → lookup k m'.subscriptions ≡ lookup k m.subscriptions)
    → RefusedWith e sub m (resolved sub (some e) m')
unfolding resolved
refuse sub e m m' fresh same = (lookup-resolve_fresh sub (some e) m'.results fresh, same)

place_subscription-outcome :
    (c : UserCommand) (i : ℕ) (w : Worker) (m : Mux)
    → lookup c.subscription m.results ≡ none
    → lookup c.key m.subscriptions ≡ none
    → get_elem? m.workers i ≡ some w
    → Placed c i w m (place_subscription c i w m)
unfolding place_subscription resolved
place_subscription-outcome c i w m fresh absent at = elim (Bool-cases (is_connected w.state)) [
  | inr off ↦
      rw (off, place_subscription)
        (inl (
          refl,
          (
            lookup-insert_self c.key _ m.subscriptions,
            λ k h. lookup-insert_ne c.key k _ m.subscriptions h,
          ),
          lookup-resolve_fresh c.subscription none m.results fresh,
        ))
  | inl on ↦ elim (offer_write-cases i w (subscribe_intent c.key) c.subscription recorded) [
    | inl (full, refused) ↦
        rw (on, place_subscription, refused)
          (inr (
            refl,
            inr (
              full,
              refuse c.subscription queue_full m (remove_desired_key i c.key withdrawn)
                  (rw (subscriptions-remove_desired_key i c.key withdrawn).1 fresh)
                  (λ k. rw (subscriptions-remove_desired_key i c.key withdrawn).0 (
                    ground (
                      arith,
                      lookup-delete c.key k recorded.subscriptions,
                      lookup-insert c.key k entry m.subscriptions,
                      string_eq.beq_iff c.key k,
                    ))),
            ),
          ))
    | inr (room, sent) ↦
        rw (on, place_subscription, sent)
          (inr (
            refl,
            inl (
              room,
              (
                lookup-insert_self c.key _ m.subscriptions,
                λ k h. lookup-insert_ne c.key k _ m.subscriptions h,
              ),
              (
                refl,
                (
                  _,
                  w.mailbox.queue,
                  get_elem?-set_self m.workers i _ (get_elem?-lt m.workers i at),
                  refl,
                ),
              ),
            ),
          ))
  ]
]
  where
    entry : MuxSubscription
    entry = record { worker_index = i; intent = subscribe_intent c.key }

    recorded : Mux
    recorded = record m { subscriptions = insert c.key entry m.subscriptions }

    withdrawn : Mux
    withdrawn = record m { subscriptions = delete c.key recorded.subscriptions }

-- A subscribe command whose handle is new has one of five ends. A key that has an entry is refused with
-- `ErrSubscriptionExists`; where the policy's choice fails, the command is refused with the error of the choice.
-- Else a worker is chosen: if it is not connected, the key gets an entry with it and the handle its `nil`; if it is
-- connected and its mailbox has room, the key gets the entry and the write stands at the end of the mailbox; if
-- the mailbox is full, the command is refused with `ErrQueueFull`. A command that is refused has changed no
-- subscription, and one that is not has changed that of its key only.
pub handle_subscribe_outcome :
    (c : UserCommand) (m : Mux)
    → lookup c.subscription m.results ≡ none
    → let m' = handle_subscribe c m in
      ((x : MuxSubscription) × (lookup c.key m.subscriptions ≡ some x)
        × RefusedWith subscription_exists c.subscription m m')
      ⊎ ((e : Err) × (lookup c.key m.subscriptions ≡ none)
          × (pick_worker m.placement_policy c.key m.workers ≡ err e)
          × RefusedWith e c.subscription m m')
      ⊎ ((i : ℕ) × (w : Worker) × (lookup c.key m.subscriptions ≡ none)
          × (pick_worker m.placement_policy c.key m.workers ≡ ok i)
          × (get_elem? m.workers i ≡ some w)
          × Placed c i w m m')
unfolding handle_subscribe
handle_subscribe_outcome c m fresh = elim (Option-cases (lookup c.key m.subscriptions)) [
  | inr (x, there) ↦
      rw (there, handle_subscribe)
        (inl (x, refl, refuse c.subscription subscription_exists m m fresh (λ k. refl)))
  | inl absent ↦ elim (Result-cases (pick_worker m.placement_policy c.key m.workers)) [
    | inl (e, no_worker) ↦
        rw (absent, no_worker, handle_subscribe)
          (inr (inl (e, refl, refl, refuse c.subscription e m m fresh (λ k. refl))))
    | inr (i, chosen) ↦
        let (w, at, _) = pick_worker_in_range m.placement_policy c.key m.workers i chosen in
        rw (absent, chosen, handle_subscribe, subscribe_placed, subscribe_at, at)
          (inr (inr (i, w, refl, refl, at, place_subscription-outcome c i w m fresh absent at)))
  ]
]
