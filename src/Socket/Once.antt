-- ===== src/Socket/Once.antt =====
-- internal/core/pkg/wsrefact_v5: a call is resolved once, or its event still waits for a loop that has ended.
use custom_hts_legacy.Socket.State.{Hook, returns, writes}
use custom_hts_legacy.Socket.Loop.{replayer_frame, replayer_send, run_hook}
use custom_hts_legacy.Prelude.{
  ℕ, zero, suc, ◌+◌, ◌<◌, ◌≡◌, refl, sym, ◌∙◌, ap, true, false, ◌&&◌, ◌||◌, Option, none, some,
  List, [], ◌∷◌, ◌++◌, arith, nat_beq_iff, ◌==◌, nat_eq, ◌⊎◌, inl, inr, Bool-cases, Option-cases,
  is_some, if_true, if_false,
}
use custom_hts_legacy.Prelude.Maps.{lookup, lookup-insert_ne}
use custom_hts_legacy.Socket.Intents.{
  Err, handler_continue, handler_backoff, PayloadGen, Intent, IntentStore, put, remove,
}
use custom_hts_legacy.Socket.Intents
use custom_hts_legacy.Socket.State.{ConnState, ConnEvent, Config, Loop, emit}
use custom_hts_legacy.Socket.Workers.{worker_step, dispose_transport, work, wait, queue_length}
use custom_hts_legacy.Socket.Loop.{
  with_state, schedule_reconnect, release, release_live, enter_backoff, replay_generated, then_go,
  on_ready_hook, replay, activate, activated,
}
use custom_hts_legacy.Socket.Phases.{bit}
use custom_hts_legacy.Socket.Counts.{load, IsKept, same-IsKept, zero_trans}
use custom_hts_legacy.Socket.State.{new_transport}
use custom_hts_legacy.Socket.Loop.{
  Event, send, subscribe, unsubscribe, snapshot_keys, dial_result, reconnect_tick, handler_failed,
  read_failed, worker_failed, start_dial, with_transport, dialed, handle_dial_result,
  on_handler_error, is_live, handle_subscribe, handle_unsubscribe, handle_handler_error,
  handle_read_error, handle_worker_failure, handle_tick, handle_event, wait_all, dispose_live,
  live_ids, shutdown,
}
use custom_hts_legacy.Socket.Counts.{in_place, count-insert}
use custom_hts_legacy.Socket.Replies.{
  send-IsKept, with-IsKept, removed-IsKept, worker-IsKept, dispose-IsKept, sync-IsKept, emit-IsKept,
}

abbrev pub Numbered : Loop → Type 0
Numbered l = (id : ℕ) → is_some (lookup id l.transports) ≡ true → id < l.next_transport

pub kept-Numbered : {h n : ℕ} {l l' : Loop} → IsKept h n l l' → Numbered l → Numbered l'
kept-Numbered {h} {n} {l} {l'} k numbered =
    λ id there. omega (arith, k.next, numbered id (sym (k.same id) ∙ there))

-- The loop `l'` comes from `l`, with `n` more places of the call.
abbrev pub IsMoved : ℕ → ℕ → Loop → Loop → Type 0
IsMoved h n l l' = (load h l' ≡ load h l + n) × Numbered l'

IsMoved-by : {h n : ℕ} {l l' : Loop} → IsKept h n l l' → Numbered l → IsMoved h n l l'
IsMoved-by {h} {n} {l} {l'} k numbered =
    (k.counted, kept-Numbered {h = h} {n = n} {l = l} {l' = l'} k numbered)

module _ (config : Config) (h : ℕ) where
  pub schedule-IsKept : (attempt : ℕ) (l : Loop) → IsKept h 0 l (schedule_reconnect attempt l)
  unfolding schedule_reconnect
  schedule-IsKept attempt l = elim (Bool-cases (l.waiting_reconnect || l.cancelled)) [
    | inl stays ↦
        if_true (IsKept h 0 l) (l.waiting_reconnect || l.cancelled) _ _ stays
          (same-IsKept h l l refl refl refl)
    | inr waits ↦
        if_false (IsKept h 0 l) (l.waiting_reconnect || l.cancelled) _ _ waits
          (same-IsKept h l _ refl refl refl)
  ]

  pub start_dial-IsKept : (attempt : ℕ) (l : Loop) → IsKept h 0 l (start_dial attempt l)
  unfolding start_dial
  start_dial-IsKept attempt l = elim (Bool-cases (l.dialing || l.cancelled)) [
    | inl stays ↦
        if_true (IsKept h 0 l) (l.dialing || l.cancelled) _ _ stays
          (same-IsKept h l l refl refl refl)
    | inr starts ↦
        if_false (IsKept h 0 l) (l.dialing || l.cancelled) _ _ starts
          (same-IsKept h l _ refl refl refl)
  ]

  freed-IsKept : (live : Option ℕ) (l : Loop) → IsKept h 0 l (release live l)
  freed-IsKept none l = same-IsKept h l (release none l) refl refl refl
  freed-IsKept (some id) l =
      zero_trans (dispose-IsKept config h id l)
        (same-IsKept h (dispose_transport id l) (release (some id) l) refl refl refl)

  release-IsKept : (l : Loop) → IsKept h 0 l (release_live l)
  unfolding release_live
  release-IsKept l = freed-IsKept l.live l

  enter_backoff-IsKept :
      (e : Err) (attempt : ℕ) (l : Loop) → IsKept h 0 l (enter_backoff e attempt l)
  unfolding enter_backoff
  enter_backoff-IsKept e attempt l =
      let told = emit (ConnEvent.disconnected e) l in
      let freed = release_live told in
      zero_trans (emit-IsKept config h (ConnEvent.disconnected e) l) (
        zero_trans (release-IsKept told) (
          zero_trans (same-IsKept h freed (with_state ConnState.reconnecting freed) refl refl refl)
            (schedule-IsKept attempt (with_state ConnState.reconnecting freed))))

  generated-IsKept :
      (id : ℕ) (intent : Intent) (r : Err ⊎ ℕ) (l : Loop)
      → IsKept h 0 l (replay_generated config id intent r l).0
  generated-IsKept id intent (inl e) l = same-IsKept h l l refl refl refl
  generated-IsKept id intent (inr payload) l = sync-IsKept config h id _ l

  then-IsKept :
      (l : Loop) (o : Loop × Option Err) (go : Loop → Loop × Option Err)
      → IsKept h 0 l o.0
      → ((x : Loop) → IsKept h 0 x (go x).0)
      → IsKept h 0 l (then_go o go).0
  then-IsKept l (x, none) go k f = zero_trans k (f x)
  then-IsKept l (x, some e) go k f = k

  replay-IsKept :
      (now id : ℕ) (intents : List Intent) (l : Loop)
      → IsKept h 0 l (replay config now id intents l).0
  unfolding replay
  replay-IsKept now id [] l = same-IsKept h l l refl refl refl
  replay-IsKept now id (intent ∷ rest) l =
      then-IsKept l (replay_generated config id intent (intent.sub_gen now) l) _
        (generated-IsKept id intent (intent.sub_gen now) l) (λ x. replay-IsKept now id rest x)

  hook-IsKept : (id : ℕ) (hook : Hook) (l : Loop) → IsKept h 0 l (run_hook config id hook l).0
  unfolding run_hook
  hook-IsKept id (returns e) l = same-IsKept h l l refl refl refl
  hook-IsKept id (writes frame next) l =
      let sent = replayer_send config id frame l in
      zero_trans (sync-IsKept config h id (replayer_frame frame) l)
        (hook-IsKept id (next sent.1) sent.0)

  ready-IsKept :
      (on_ready : Option (ℕ → ℕ → Hook)) (id attempt : ℕ) (l : Loop)
      → IsKept h 0 l (on_ready_hook config on_ready id attempt l).0
  ready-IsKept none id attempt l = same-IsKept h l l refl refl refl
  ready-IsKept (some go) id attempt l = hook-IsKept id (go id attempt) l

  activated-IsKept :
      (attempt : ℕ) (l : Loop) (o : Loop × Option Err)
      → IsKept h 0 l o.0
      → IsKept h 0 l (activated attempt o)
  activated-IsKept attempt l (x, some e) k = zero_trans k (enter_backoff-IsKept e (attempt + 1) x)
  activated-IsKept attempt l (x, none) k = zero_trans k (same-IsKept h x _ refl refl refl)

  activate-IsKept :
      (now id attempt : ℕ) (l : Loop)
      → IsKept h 0 l (activated attempt (activate config now id attempt l))
  unfolding activate
  activate-IsKept now id attempt l = activated-IsKept attempt l (activate config now id attempt l) (
      then-IsKept l (replay config now id (Intents.snapshot l.store) l) _
        (replay-IsKept now id (Intents.snapshot l.store) l)
        (λ x. ready-IsKept config.on_ready id attempt x))

  with_transport-IsMoved : (l : Loop) → Numbered l → IsMoved h 0 l (with_transport l)
  with_transport-IsMoved l numbered =
      let none_there : lookup l.next_transport l.transports ≡ none =
        elim (Option-cases (lookup l.next_transport l.transports)) [
          | inl gone ↦ gone
          | inr (t, there) ↦ absurd (omega (arith, numbered l.next_transport (ap is_some there)))
        ] in
      let placed = count-insert h l.next_transport new_transport l.transports in
      (
        omega (arith, placed, ap (in_place h) none_there),
        λ id there. elim (Bool-cases (l.next_transport == id)) [
          | inl same ↦ omega (arith, (nat_beq_iff l.next_transport id).0 same)
          | inr apart ↦ omega (
            arith,
            numbered id (
                ap is_some
                  (sym (lookup-insert_ne l.next_transport id new_transport l.transports apart))
                ∙ there),
          )
        ],
      )

  dialed-IsMoved :
      (now attempt : ℕ) (outcome : Option Err) (l : Loop)
      → Numbered l
      → IsMoved h 0 l (dialed config now attempt outcome l)
  dialed-IsMoved now attempt (some e) l numbered =
      IsMoved-by (schedule-IsKept (attempt + 1) l) numbered
  dialed-IsMoved now attempt none l numbered =
      let (counted, numbered') = with_transport-IsMoved l numbered in
      let kept = activate-IsKept now l.next_transport attempt (with_transport l) in
      (omega (arith, kept.counted, counted), kept-Numbered kept numbered')

  result-IsMoved :
      (now attempt : ℕ) (outcome : Option Err) (l : Loop)
      → Numbered l
      → IsMoved h 0 l (handle_dial_result config now attempt outcome l)
  unfolding handle_dial_result
  result-IsMoved now attempt outcome l numbered = elim (Bool-cases l.cancelled) [
    | inl off ↦ if_true (IsMoved h 0 l) l.cancelled _ _ off (omega arith, numbered)
    | inr runs ↦
        if_false (IsMoved h 0 l) l.cancelled _ _ runs
          (dialed-IsMoved now attempt outcome (record l { dialing = false }) numbered)
  ]

  back-IsMoved : (e : Err) (l : Loop) → Numbered l → IsMoved h 0 l (enter_backoff e 1 l)
  back-IsMoved e l numbered = IsMoved-by (enter_backoff-IsKept e 1 l) numbered

  still : (l : Loop) → Numbered l → IsMoved h 0 l l
  still l numbered = (omega arith, numbered)

  on_error-IsMoved : (e : Err) (l : Loop) → Numbered l → IsMoved h 0 l (on_handler_error e l).0
  unfolding on_handler_error
  on_error-IsMoved handler_backoff l numbered =
      back-IsMoved handler_backoff (emit (ConnEvent.handler_error handler_backoff) l) numbered
  on_error-IsMoved handler_continue l numbered = still l numbered
  on_error-IsMoved Intents.already_running l numbered = still l numbered
  on_error-IsMoved Intents.already_subscribed l numbered = still l numbered
  on_error-IsMoved Intents.not_subscribed l numbered = still l numbered
  on_error-IsMoved Intents.client_stopped l numbered = still l numbered
  on_error-IsMoved Intents.queue_full l numbered = still l numbered
  on_error-IsMoved Intents.backoff l numbered = still l numbered
  on_error-IsMoved Intents.invalid_options l numbered = still l numbered
  on_error-IsMoved Intents.handler_stop l numbered = still l numbered
  on_error-IsMoved (Intents.foreign n) l numbered = still l numbered

  handler_error-IsMoved :
      (id : ℕ) (e : Err) (l : Loop) → Numbered l → IsMoved h 0 l (handle_handler_error id e l).0
  unfolding handle_handler_error
  handler_error-IsMoved id e l numbered = elim (Bool-cases (is_live id l)) [
    | inl there ↦
        if_true (λ (o : Loop × Option Err). IsMoved h 0 l o.0) (is_live id l) _ _ there
          (on_error-IsMoved e l numbered)
    | inr stale ↦
        if_false (λ (o : Loop × Option Err). IsMoved h 0 l o.0) (is_live id l) _ _ stale
          (still l numbered)
  ]

  read_error-IsMoved :
      (id : ℕ) (e : Err) (l : Loop) → Numbered l → IsMoved h 0 l (handle_read_error id e l)
  unfolding handle_read_error
  read_error-IsMoved id e l numbered = elim (Bool-cases (is_live id l)) [
    | inl there ↦ if_true (IsMoved h 0 l) (is_live id l) _ _ there (back-IsMoved e l numbered)
    | inr stale ↦ if_false (IsMoved h 0 l) (is_live id l) _ _ stale (still l numbered)
  ]

  failure-IsMoved :
      (id : ℕ) (e : Err) (l : Loop) → Numbered l → IsMoved h 0 l (handle_worker_failure id e l)
  unfolding handle_worker_failure
  failure-IsMoved id e l numbered = elim (Bool-cases (is_live id l && l.routing_open)) [
    | inl there ↦
        if_true (IsMoved h 0 l) (is_live id l && l.routing_open) _ _ there (still l numbered)
    | inr stale ↦
        if_false (IsMoved h 0 l) (is_live id l && l.routing_open) _ _ stale (still l numbered)
  ]

-- The call that an event is of.
abbrev pub waits_as : ℕ → Event → ℕ
waits_as h (send frame i) = bit (i == h)
waits_as h (subscribe key options i) = bit (i == h)
waits_as h (unsubscribe key i) = bit (i == h)
waits_as h _ = 0

module _ (config : Config) (h now : ℕ) (l : Loop) (numbered : Numbered l) where
  pub event-IsMoved :
      (event : Event) → IsMoved h (waits_as h event) l (handle_event config now event l).0
  unfolding handle_event handle_subscribe handle_unsubscribe handle_tick
  event-IsMoved (send frame i) = IsMoved-by (send-IsKept config h frame i l) numbered
  event-IsMoved (subscribe key options i) =
      IsMoved-by (with-IsKept config h now options.sub_gen options.unsub_gen key options i l)
        numbered
  event-IsMoved (unsubscribe key i) =
      IsMoved-by (removed-IsKept config h now i (remove key l.store) l) numbered
  event-IsMoved (snapshot_keys query) = (omega arith, numbered)
  event-IsMoved (dial_result attempt outcome) =
      result-IsMoved config h now attempt outcome l numbered
  event-IsMoved (reconnect_tick attempt) =
      IsMoved-by (start_dial-IsKept config h attempt (record l { waiting_reconnect = false }))
        numbered
  event-IsMoved (handler_failed id e) = handler_error-IsMoved config h id e l numbered
  event-IsMoved (read_failed id e) = read_error-IsMoved config h id e l numbered
  event-IsMoved (worker_failed id e) = failure-IsMoved config h id e l numbered

module _ (config : Config) (h : ℕ) where
  work-IsKept : (id n : ℕ) (l : Loop) → IsKept h 0 l (work config id n l)
  unfolding work
  work-IsKept id zero l = same-IsKept h l l refl refl refl
  work-IsKept id (suc n) l =
      zero_trans (worker-IsKept config h id l) (work-IsKept id n (worker_step config id l))

  wait_all-IsKept : (ids : List ℕ) (l : Loop) → IsKept h 0 l (wait_all config ids l)
  unfolding wait_all wait
  wait_all-IsKept [] l = same-IsKept h l l refl refl refl
  wait_all-IsKept (id ∷ ids) l =
      zero_trans (work-IsKept id (queue_length (lookup id l.transports)) l)
        (wait_all-IsKept ids (wait config id l))

  disposed-IsKept : (live : Option ℕ) (l : Loop) → IsKept h 0 l (dispose_live live l)
  disposed-IsKept none l = same-IsKept h l l refl refl refl
  disposed-IsKept (some id) l = dispose-IsKept config h id l

  pub shutdown-IsKept : (run_err : Option Err) (l : Loop) → IsKept h 0 l (shutdown config run_err l)
  unfolding shutdown
  shutdown-IsKept run_err l =
      let detached : Loop = record l { cancelled = true; routing_open = false; live = none } in
      let disposed = dispose_live l.live detached in
      let quiet = wait_all config (l.retired ++ live_ids l.live) disposed in
      zero_trans (same-IsKept h l detached refl refl refl) (
        zero_trans (disposed-IsKept l.live detached) (
          zero_trans (wait_all-IsKept (l.retired ++ live_ids l.live) disposed) (
            same-IsKept h quiet
              (emit (ConnEvent.stopped run_err) (with_state ConnState.stopped quiet)) refl refl
              refl)))
