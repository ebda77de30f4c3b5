-- ===== src/Mux/Outcomes.antt =====
-- What a caller of internal/core/pkg/wsrefact_v6 gets for its commands.
use custom_hts_legacy.Prelude.{
  ℕ, ◌≡◌, refl, sym, ◌⊎◌, inl, inr, false, Option, none, some, List, [], ◌∷◌, ◌++◌, String,
  string_eq, nat_eq, ◌==◌, arith, get_elem?, Elem, Option-cases, Bool-cases, get_elem?-set_self,
  get_elem?-lt, set-get_elem?, ◌∙◌,
}
use custom_hts_legacy.Prelude.Maps.{
  lookup, insert, delete, lookup-insert, lookup-delete, lookup-delete_self, lookup-delete_ne,
}
use custom_hts_legacy.Mux.Types.{
  Err, queue_full, subscription_not_found, UserCommand, UserCommandKind, IoCommand, WriteIntent,
  MuxSubscription, Worker, Mux, resolved, send, is_running,
}
use custom_hts_legacy.Mux.Keys.{insert_key-remove_key}
use custom_hts_legacy.Mux.Commands.{
  write_command, subscribe_intent, handle_subscribe, handle_unsubscribe, unsubscribe_entry,
  dispatch_command, handle_command,
}
use custom_hts_legacy.Mux.Loop.{command, receive, shutdown_resolve_error}
use custom_hts_legacy.Mux.Resolution.{lookup-resolve_fresh}
use custom_hts_legacy.Mux.Types.{subscription_exists, queue_full}
use custom_hts_legacy.Mux.Subscribing.{
  Refused, Placed, Accepted, HandedOver, handle_subscribe_outcome,
}
use custom_hts_legacy.Mux.Unsubscribing.{Retracted, unsubscribe_intent, unsubscribe_entry-Retracted}
use custom_hts_legacy.Mux.Invariant.{IsConsistent, entry_worker}

-- What becomes of an unsubscribe command that is not refused: the entry `x` of its key is gone and no
-- other has changed, and the command has its result or went to the worker of the entry.
abbrev pub Unsubscribed : UserCommand → MuxSubscription → Mux → Mux → Type 0
Unsubscribed c x m m' =
    (lookup c.key m.subscriptions ≡ some x)
    × (lookup c.key m'.subscriptions ≡ none)
    × ((k : String) → (c.key == k) ≡ false → lookup k m'.subscriptions ≡ lookup k m.subscriptions)
    × (Accepted c.subscription m'
        ⊎ HandedOver c.subscription (unsubscribe_intent x) x.worker_index m m')

Retracted-outcome :
    (c : UserCommand) (x : MuxSubscription) (w : Worker) (m m' : Mux)
    → lookup c.subscription m.results ≡ none
    → lookup c.key m.subscriptions ≡ some x
    → get_elem? m.workers x.worker_index ≡ some w
    → Retracted c x w m m'
    → Refused c.subscription m m' ⊎ Unsubscribed c x m m'
unfolding resolved send
Retracted-outcome c x w m m' fresh here at r = elim r [
  | inl (off, e) ↦
      rw (e, resolved)
        (inr (
          here,
          lookup-delete_self c.key m.subscriptions,
          (λ k h. lookup-delete_ne c.key k m.subscriptions h),
          inl (lookup-resolve_fresh c.subscription none m.results fresh),
        ))
  | inr (inl (on, e)) ↦
      rw (e, resolved)
        (inl (
          queue_full,
          lookup-resolve_fresh c.subscription (some queue_full) m.results fresh,
          (λ k. back k),
        ))
  | inr (inr (on, e)) ↦ rw e (
      inr (
        here,
        lookup-delete_self c.key m.subscriptions,
        (λ k h. lookup-delete_ne c.key k m.subscriptions h),
        inr (
          refl,
          (
            _,
            w.mailbox.queue,
            get_elem?-set_self m.workers x.worker_index _
                (get_elem?-lt m.workers x.worker_index at),
            refl,
          ),
        ),
      ))
]
  where
    back :
        (k : String)
        → lookup k (insert c.key x (delete c.key m.subscriptions)) ≡ lookup k m.subscriptions
    back k = ground (
      arith,
      lookup-insert c.key k x (delete c.key m.subscriptions),
      lookup-delete c.key k m.subscriptions,
      string_eq.beq_iff c.key k,
    )

-- An unsubscribe command whose handle is new, to a mux whose desired state is consistent, is either
-- refused with an error, and no subscription has changed, or the entry of its key is gone, no other
-- has changed, and either the handle has its `nil` or the unsubscribe write stands at the end of the
-- mailbox of the entry's worker.
pub handle_unsubscribe_outcome :
    (c : UserCommand) (m : Mux)
    → IsConsistent m
    → lookup c.subscription m.results ≡ none
    → let m' = handle_unsubscribe c m in
      Refused c.subscription m m' ⊎ ((x : MuxSubscription) × Unsubscribed c x m m')
unfolding handle_unsubscribe resolved
handle_unsubscribe_outcome c m v fresh = elim (Option-cases (lookup c.key m.subscriptions)) [
  | inl absent ↦
      rw (absent, handle_unsubscribe)
        (inl (
          subscription_not_found,
          lookup-resolve_fresh c.subscription _ m.results fresh,
          (λ k. refl),
        ))
  | inr (x, here) ↦
      let (w, at) = entry_worker c.key x m here v in
      rw (here, handle_unsubscribe)
        (elim (Retracted-outcome c x w m (unsubscribe_entry c x m) fresh here at
          (unsubscribe_entry-Retracted c x w m at)) [
            | inl no_change ↦ inl no_change
            | inr (_, gone, others, end) ↦ inr (x, (refl, gone, others, end))
          ])
]

-- A refused unsubscribe write leaves the replay orders of the workers as they were, if the key was
-- desired: every worker is what it was before the command.
pub refused_unsubscribe_restores :
    (c : UserCommand) (m : Mux) (x : MuxSubscription) (w : Worker)
    → IsConsistent m
    → lookup c.subscription m.results ≡ none
    → lookup c.key m.subscriptions ≡ some x
    → get_elem? m.workers x.worker_index ≡ some w
    → Elem c.key w.desired_keys
    → lookup c.subscription (handle_unsubscribe c m).results ≡ some (some queue_full)
    → (handle_unsubscribe c m).workers ≡ m.workers
unfolding handle_unsubscribe resolved
refused_unsubscribe_restores c m x w v fresh here at desired refused =
    rw (here, handle_unsubscribe)
      (elim (unsubscribe_entry-Retracted c x w m at) [
        | inl (off, e) ↦ absurd (
            cc (
              sym (lookup-resolve_fresh c.subscription none m.results fresh)
              ∙ (rw (here, handle_unsubscribe, e, resolved) at refused)))
        | inr (inl (on, e)) ↦
            rw (e, resolved, insert_key-remove_key w.desired_keys c.key desired)
              (set-get_elem? m.workers x.worker_index at)
        | inr (inr (on, e)) ↦
            absurd (cc (sym fresh ∙ (rw (here, handle_unsubscribe, e) at refused)))
      ])

-- A handle that is answered, or that went to a worker.
abbrev pub Served : ℕ → Mux → Type 0
Served sub m' =
    ((r : Option Err) × (lookup sub m'.results ≡ some r))
    ⊎ ((i : ℕ) × (w : Worker) × (intent : WriteIntent) × (q : List IoCommand) × (get_elem?
            m'.workers i
          ≡ some w)
        × (w.mailbox.queue ≡ q ++ (write_command intent sub ∷ [])))

Accepted-Served :
    (sub : ℕ) (intent : WriteIntent) (i : ℕ) (m m' : Mux)
    → Accepted sub m' ⊎ HandedOver sub intent i m m'
    → Served sub m'
Accepted-Served sub intent i m m' (inl a) = inl (none, a)
Accepted-Served sub intent i m m' (inr (_, (w, q, at, e))) = inr (i, w, intent, q, at, e)

Placed-Served :
    (c : UserCommand) (i : ℕ) (w : Worker) (m m' : Mux)
    → Placed c i w m m'
    → Served c.subscription m'
Placed-Served c i w m m' (inl (_, _, end)) =
    Accepted-Served c.subscription (subscribe_intent c.key) i m m' (inl end)
Placed-Served c i w m m' (inr (_, inl (_, _, end))) =
    Accepted-Served c.subscription (subscribe_intent c.key) i m m' (inr end)
Placed-Served c i w m m' (inr (_, inr (_, (h, _)))) = inl (some queue_full, h)

handle_command-Served :
    (kind : UserCommandKind) (c : UserCommand) (m : Mux)
    → IsConsistent m
    → lookup c.subscription m.results ≡ none
    → Served c.subscription (dispatch_command kind c m)
unfolding dispatch_command
handle_command-Served UserCommandKind.subscribe c m v fresh =
    elim (handle_subscribe_outcome c m fresh) [
      | inl (_, _, (h, _)) ↦ inl (some subscription_exists, h)
      | inr (inl (e, _, _, (h, _))) ↦ inl (some e, h)
      | inr (inr (i, w, _, _, _, placed)) ↦ Placed-Served c i w m (handle_subscribe c m) placed
    ]
handle_command-Served UserCommandKind.unsubscribe c m v fresh =
    elim (handle_unsubscribe_outcome c m v fresh) [
      | inl (e, h, _) ↦ inl (some e, h)
      | inr (x, (_, _, _, end)) ↦
          Accepted-Served c.subscription (unsubscribe_intent x) x.worker_index m
            (handle_unsubscribe c m) end
    ]

-- No command is forgotten. A command with a new handle that the run loop takes from its mailbox, in
-- whatever state of the mux with a consistent desired state, has its result afterwards, or a write with
-- its handle stands at the end of a worker's mailbox.
pub received_command-Served :
    (c : UserCommand) (m : Mux)
    → IsConsistent m
    → lookup c.subscription m.results ≡ none
    → Served c.subscription (receive (command c) m)
unfolding receive handle_command resolved
received_command-Served c m v fresh = elim (Bool-cases (is_running m.state)) [
  | inl on ↦ rw (on, receive) (handle_command-Served c.kind c m v fresh)
  | inr off ↦
      rw (off, receive)
        (inl (
          some (shutdown_resolve_error m.shutdown_err),
          lookup-resolve_fresh c.subscription _ m.results fresh,
        ))
]
