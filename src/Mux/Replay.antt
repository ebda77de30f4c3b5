-- ===== src/Mux/Replay.antt =====
-- `runReplay` of internal/core/pkg/wsrefact_v6/mux.go: what a worker is told to subscribe to when it is
-- connected again, and which subscriptions it is not told of.
use custom_hts_legacy.Prelude.{
  ℕ, ◌<◌, length, length-map, ◌≡◌, refl, sym, ap, inl, inr, false, none, some, List, [], ◌∷◌, ◌++◌,
  map, String, string_eq, nat_eq, arith, get_elem?, set, Elem, Option-cases, Bool-cases,
  get_elem?-map, get_elem?-set_cases, ◌∙◌,
}
use mathlib.Core.List.{append-nil, append_assoc}
use custom_hts_legacy.Prelude.Maps.{lookup, insert, delete}
use custom_hts_legacy.Mux.Types.{
  UserCommand, IoCommand, MuxSubscription, Worker, Mailbox, Mux, connected, resolved, is_connected,
  is_stopped, send,
}
use custom_hts_legacy.Mux.Keys.{Elem-remove_key}
use custom_hts_legacy.Mux.Slot.{
  Slot, replay_command, replay_keys, run_replay, clear_dial_cancel, start_ping_ticker,
  handle_worker_ready,
}
use custom_hts_legacy.Mux.Commands.{
  update_worker, remove_desired_key, subscribe_intent, place_subscription, subscribe_at,
  subscribe_placed, handle_subscribe,
}
use custom_hts_legacy.Mux.Placement.{pick_worker}
use custom_hts_legacy.Mux.Least.{pick_worker_in_range, Result-cases}
use custom_hts_legacy.Mux.Subscribing.{offer_write-cases}
use custom_hts_legacy.Mux.Consistency.{Subs, Consistent}
use custom_hts_legacy.Mux.Invariant.{IsConsistent, desired_of, handle_subscribe-IsConsistent}

-- The subscribe writes for the keys, in their order.
abbrev pub replays : List String → List IoCommand
replays = map (λ k. replay_command (subscribe_intent k))

-- Each key has an entry whose intent is its subscribe intent.
abbrev AllEntered : Subs → List String → Type 0
AllEntered subs [] = Unit
AllEntered subs (k ∷ ks) =
    ((x : MuxSubscription) × (lookup k subs ≡ some x) × (x.intent ≡ subscribe_intent k))
    × AllEntered subs ks

queue-replay_keys :
    (subs : Subs) (ks : List String) (b : Mailbox)
    → AllEntered subs ks
    → (replay_keys subs ks b).queue ≡ b.queue ++ replays ks
unfolding replay_keys
queue-replay_keys subs [] b h = sym (append-nil b.queue)
queue-replay_keys subs (k ∷ ks) b h =
    let (x, here, intent) = h.0 in
    rw (here, replay_keys, intent)
      (queue-replay_keys subs ks (send (replay_command (subscribe_intent k)) b) h.1
        ∙ append_assoc b.queue (replay_command (subscribe_intent k) ∷ []) (replays ks))

entered :
    (subs : Subs) (keys : List (List String)) (i : ℕ) (ks : List String)
    → Consistent subs keys
    → ((k : String)
        → Elem k ks
        → (x : MuxSubscription) × (lookup k subs ≡ some x) × (x.worker_index ≡ i))
    → AllEntered subs ks
entered subs keys i [] v h = tt
entered subs keys i (k ∷ ks) v h =
    let (x, here, _) = h k (inl refl) in
    ((x, here, v.intents k x here), entered subs keys i ks v (λ j m. h j (inr m)))

mailbox-start_ping_ticker :
    (i : ℕ) (s : Slot)
    → ((start_ping_ticker i s).worker.mailbox ≡ s.worker.mailbox)
      × ((start_ping_ticker i s).worker.state ≡ s.worker.state)
unfolding start_ping_ticker
mailbox-start_ping_ticker i s = ground arith

-- When a worker that is not stopped is connected again, it is told to subscribe to each of its desired
-- keys once, in their order, behind what its mailbox held, and it counts as connected.
pub handle_worker_ready-replays :
    (m : Mux) (i : ℕ) (w : Worker)
    → IsConsistent m
    → get_elem? m.workers i ≡ some w
    → is_stopped w.state ≡ false
    → let w' =
        (handle_worker_ready m.subscriptions i
          (record { worker = w; contexts = m.contexts })).worker in
      (w'.mailbox.queue ≡ w.mailbox.queue ++ replays w.desired_keys) × (w'.state ≡ connected)
unfolding handle_worker_ready
handle_worker_ready-replays m i w v at live =
    let cleared = clear_dial_cancel (record { worker = w; contexts = m.contexts }) in
    let ready = run_replay m.subscriptions cleared in
    let (same, state) = mailbox-start_ping_ticker i ready in
    (
      ap (λ (b : Mailbox). b.queue) same ∙ rw (live, run_replay) told,
      state ∙ rw (live, run_replay) refl,
    )
  where
    told :
        (replay_keys m.subscriptions w.desired_keys w.mailbox).queue
        ≡ w.mailbox.queue ++ replays w.desired_keys
    told = queue-replay_keys m.subscriptions w.desired_keys w.mailbox (
        entered m.subscriptions (map desired_of m.workers) i w.desired_keys v
          (λ k. v.desired i w.desired_keys k (get_elem?-map desired_of m.workers i at)))

-- `handleSubscribe` lets no worker desire a key that it did not desire.
abbrev Undesired : String → List Worker → Type 0
Undesired key ws = (i : ℕ) (w : Worker) → get_elem? ws i ≡ some w → Elem key w.desired_keys → ⊥

Undesired-set :
    (key : String) (ws : List Worker) (i : ℕ) (w : Worker)
    → Undesired key ws
    → (Elem key w.desired_keys → ⊥)
    → Undesired key (set ws i w)
Undesired-set key ws i w h out j v at m = elim (get_elem?-set_cases ws i j w at) [
  | inl (same, e) ↦ out (rw e at m)
  | inr (other, old) ↦ h j v old m
]

Undesired-remove :
    (key : String) (i : ℕ) (m : Mux)
    → Undesired key m.workers
    → Undesired key (remove_desired_key i key m).workers
unfolding remove_desired_key update_worker
Undesired-remove key i m h = elim (Option-cases (get_elem? m.workers i)) [
  | inl e ↦ rw (e, update_worker) h
  | inr (w, e) ↦
      rw (e, update_worker)
        (Undesired-set key m.workers i _ h
          (λ n. h i w e (Elem-remove_key w.desired_keys key key n)))
]

Undesired-place :
    (c : UserCommand) (i : ℕ) (w : Worker) (m : Mux)
    → get_elem? m.workers i ≡ some w
    → Undesired c.key m.workers
    → Undesired c.key (place_subscription c i w m).workers
unfolding place_subscription resolved
Undesired-place c i w m at h = elim (Bool-cases (is_connected w.state)) [
  | inr off ↦ rw (off, place_subscription) h
  | inl on ↦ elim (offer_write-cases i w (subscribe_intent c.key) c.subscription recorded) [
    | inl (_, full) ↦
        rw (on, place_subscription, full)
          (Undesired-remove c.key i
            (record m { subscriptions = delete c.key recorded.subscriptions }) h)
    | inr (room, sent) ↦
        rw (on, place_subscription, sent) (Undesired-set c.key m.workers i _ h (undesired i w at))
  ]
]
  where
    recorded : Mux
    recorded = record m {
      subscriptions =
          insert c.key (record { worker_index = i; intent = subscribe_intent c.key })
            m.subscriptions;
    }

    undesired :
        (i : ℕ) (w : Worker) → get_elem? m.workers i ≡ some w → Elem c.key w.desired_keys → ⊥
    undesired = h

Undesired-handle_subscribe :
    (c : UserCommand) (m : Mux)
    → Undesired c.key m.workers
    → Undesired c.key (handle_subscribe c m).workers
unfolding handle_subscribe
Undesired-handle_subscribe c m h = elim (Option-cases (lookup c.key m.subscriptions)) [
  | inr (x, there) ↦ rw (there, handle_subscribe) h
  | inl absent ↦ elim (Result-cases (pick_worker m.placement_policy c.key m.workers)) [
    | inl (e, no_worker) ↦ rw (absent, no_worker, handle_subscribe) h
    | inr (i, chosen) ↦
        let (w, at, _) = pick_worker_in_range m.placement_policy c.key m.workers i chosen in
        rw (absent, chosen, handle_subscribe, subscribe_placed, subscribe_at, at)
          (Undesired-place c i w m at h)
  ]
]

not-Elem-replays :
    (key : String) (ks : List String)
    → (Elem key ks → ⊥)
    → Elem (replay_command (subscribe_intent key)) (replays ks)
    → ⊥
not-Elem-replays key [] out m = m
not-Elem-replays key (k ∷ ks) out (inl e) = out (inl (cc))
not-Elem-replays key (k ∷ ks) out (inr m) = not-Elem-replays key ks (λ n. out (inr n)) m

-- A subscribe command adds a key that had no entry: its entry stands among the subscriptions, with the intent to
-- subscribe. But the key is in no worker's replay order: whichever worker that is not stopped is connected again
-- next, its replay puts into its mailbox, behind what was there, writes none of which is for the key.
pub subscribed_not_replayed :
    (c : UserCommand) (m : Mux) (x : MuxSubscription) (i : ℕ) (w : Worker)
    → IsConsistent m
    → lookup c.key m.subscriptions ≡ none
    → lookup c.key (handle_subscribe c m).subscriptions ≡ some x
    → get_elem? (handle_subscribe c m).workers i ≡ some w
    → is_stopped w.state ≡ false
    → let m' = handle_subscribe c m in
      let w' =
        (handle_worker_ready m'.subscriptions i
          (record { worker = w; contexts = m'.contexts })).worker in
      (x.intent ≡ subscribe_intent c.key)
      × (x.worker_index < length m'.workers)
      × (Elem c.key w.desired_keys → ⊥)
      × ((told : List IoCommand) × (w'.mailbox.queue ≡ w.mailbox.queue ++ told)
          × (Elem (replay_command x.intent) told → ⊥))
subscribed_not_replayed c m x i w v absent there at live =
    let m' = handle_subscribe c m in
    let v' = handle_subscribe-IsConsistent c m v in
    let intent = v'.intents c.key x there in
    let range = v'.in_range c.key x there in
    (
      intent,
      omega (arith, range, length-map desired_of m'.workers),
      out,
      (
        replays w.desired_keys,
        (handle_worker_ready-replays m' i w v' at live).0,
        rw intent (not-Elem-replays c.key w.desired_keys out),
      ),
    )
  where
    before : Undesired c.key m.workers
    before j u at' k =
        let (y, here, _) =
          v.desired j u.desired_keys c.key (get_elem?-map desired_of m.workers j at') k in
        cc (sym absent ∙ here)

    out : Elem c.key w.desired_keys → ⊥
    out = Undesired-handle_subscribe c m before i w at
