-- ===== src/Socket/Steady.antt =====
-- internal/core/pkg/wsrefact_v5/client.go: what every step of the client keeps of its phase.
use custom_hts_legacy.Prelude.{
  ℕ, zero, suc, ◌+◌, ◌≡◌, refl, sym, ◌∙◌, ap, subst, Bool, true, false, Option, none, some, List,
  [], ◌∷◌, ◌++◌, arith, nat_eq, inl, inr, Bool-cases, is_some, if_true, if_false,
}
use custom_hts_legacy.Prelude.Maps.{lookup}
use custom_hts_legacy.Socket.Intents.{
  Err, handler_continue, handler_backoff, Intent, IntentStore, remove,
}
use custom_hts_legacy.Socket.Intents
use custom_hts_legacy.Socket.State.{ConnEvent, Config, Loop, emit}
use custom_hts_legacy.Socket.Workers.{worker_step, work, wait, queue_length}
use custom_hts_legacy.Socket.Loop.{
  Event, send, subscribe, unsubscribe, snapshot_keys, dial_result, reconnect_tick, handler_failed,
  read_failed, worker_failed, handle_subscribe, handle_unsubscribe, on_handler_error, is_live,
  handle_handler_error, handle_event, wait_all, dispose_live, live_ids, shutdown,
}
use custom_hts_legacy.Socket.Phases.{
  Phase, phase_of, send-phase, with-phase, removed-phase, dispose-phase, worker-phase,
}
use custom_hts_legacy.Socket.Progress.{
  IsOk, is_result, is_tick, results_in, ticks_in, absurd_bool, is_live-some, backed_off,
  read_error-IsOk, failure-IsOk, tick-IsOk, result-IsOk,
}
use custom_hts_legacy.Socket.Client.{Client, finish}

recount : {a b r t : ℕ} (p : Phase) → a ≡ r → b ≡ t → IsOk true a b p → IsOk true r t p
recount {a = a} {b = b} {r = r} {t = t} p e f k =
    subst (λ n. IsOk true r n p) f (subst (λ n. IsOk true n b p) e k)

module _ (config : Config) (now r t : ℕ) (l : Loop) where
  handler_error_on :
      (e : Err)
      → IsOk true r t (phase_of l)
      → is_some l.live ≡ true
      → IsOk true r t (phase_of (on_handler_error e l).0)
  unfolding on_handler_error
  handler_error_on handler_continue k there = k
  handler_error_on handler_backoff k there =
      backed_off config now r t (emit (ConnEvent.handler_error handler_backoff) l) handler_backoff k
        there
  handler_error_on Intents.already_running k there = k
  handler_error_on Intents.already_subscribed k there = k
  handler_error_on Intents.not_subscribed k there = k
  handler_error_on Intents.client_stopped k there = k
  handler_error_on Intents.queue_full k there = k
  handler_error_on Intents.backoff k there = k
  handler_error_on Intents.invalid_options k there = k
  handler_error_on Intents.handler_stop k there = k
  handler_error_on (Intents.foreign n) k there = k

  handler_error-IsOk :
      (id : ℕ) (e : Err)
      → IsOk true r t (phase_of l)
      → IsOk true r t (phase_of (handle_handler_error id e l).0)
  unfolding handle_handler_error
  handler_error-IsOk id e k = elim (Bool-cases (is_live id l)) [
    | inl there ↦
        if_true (λ (x : Loop × Option Err). IsOk true r t (phase_of x.0)) (is_live id l) _ _ there
          (handler_error_on e k (is_live-some id l there))
    | inr stale ↦
        if_false (λ (x : Loop × Option Err). IsOk true r t (phase_of x.0)) (is_live id l) _ _ stale
          k
  ]

  plain : IsOk true (0 + r) (0 + t) (phase_of l) → IsOk true r t (phase_of l)
  plain k = recount (phase_of l) (omega arith) (omega arith) k

  pub event-IsOk :
      (event : Event)
      → IsOk true (is_result event + r) (is_tick event + t) (phase_of l)
      → IsOk true r t (phase_of (handle_event config now event l).0)
  unfolding handle_event handle_subscribe handle_unsubscribe
  event-IsOk (send frame handle) k =
      subst (IsOk true r t) (sym (send-phase config frame handle l)) (plain k)
  event-IsOk (subscribe key options handle) k =
      subst (IsOk true r t)
        (sym (with-phase config now options.sub_gen options.unsub_gen key options handle l))
        (plain k)
  event-IsOk (unsubscribe key handle) k =
      subst (IsOk true r t) (sym (removed-phase config now handle (remove key l.store) l)) (plain k)
  event-IsOk (snapshot_keys handle) k = plain k
  event-IsOk (dial_result attempt outcome) k =
      result-IsOk config now r t l attempt outcome
        (recount (phase_of l) (omega arith) (omega arith) k)
  event-IsOk (reconnect_tick attempt) k =
      tick-IsOk config now r t l attempt (recount (phase_of l) (omega arith) (omega arith) k)
  event-IsOk (handler_failed id e) k = handler_error-IsOk id e (plain k)
  event-IsOk (read_failed id e) k = read_error-IsOk config now r t l id e (plain k)
  event-IsOk (worker_failed id e) k = failure-IsOk config now r t l id e (plain k)

module _ (config : Config) where
  work-phase : (id n : ℕ) (l : Loop) → phase_of (work config id n l) ≡ phase_of l
  unfolding work
  work-phase id zero l = refl
  work-phase id (suc n) l = work-phase id n (worker_step config id l) ∙ worker-phase config id l

  wait_all-phase : (ids : List ℕ) (l : Loop) → phase_of (wait_all config ids l) ≡ phase_of l
  unfolding wait_all wait
  wait_all-phase [] l = refl
  wait_all-phase (id ∷ ids) l =
      wait_all-phase ids (wait config id l)
      ∙ work-phase id (queue_length (lookup id l.transports)) l

  disposed-phase : (live : Option ℕ) (l : Loop) → phase_of (dispose_live live l) ≡ phase_of l
  disposed-phase none l = refl
  disposed-phase (some id) l = dispose-phase config id l

  abbrev stopped_phase : Phase → Phase
  stopped_phase p = record p { cancelled = true; routed = false; live = false; up = false }

  shutdown-phase :
      (run_err : Option Err) (l : Loop)
      → phase_of (shutdown config run_err l) ≡ stopped_phase (phase_of l)
  unfolding shutdown
  shutdown-phase run_err l =
      let detached = record l { cancelled = true; routing_open = false; live = none } in
      ap (λ (p : Phase). record p { up = false })
        (wait_all-phase (l.retired ++ live_ids l.live) (dispose_live l.live detached)
          ∙ disposed-phase l.live detached)

-- What holds of a client.
pub record IsPhased (c : Client) : Type 0 where
  pub ok : IsOk c.is_started (results_in c.event_ch) (ticks_in c.event_ch) (phase_of c.loop)
  pub ended : c.is_finished ≡ true → c.loop.cancelled ≡ true

-- A stopped client makes no claim on what is under way.
pub off-IsOk :
    (started : Bool) (r t : ℕ) (p : Phase)
    → p.cancelled ≡ true
    → (p.up ≡ true → p.live ≡ true)
    → IsOk started r t p
off-IsOk started r t p off up = record {
  dials_ok = λ runs. absurd (absurd_bool (sym runs ∙ off));
  ticks_ok = λ runs. absurd (absurd_bool (sym runs ∙ off));
  one = λ runs. absurd (absurd_bool (sym runs ∙ off));
  up_live = up;
  routed_up = λ runs. absurd (absurd_bool (sym runs ∙ off));
}

pub finish-IsPhased :
    (config : Config) (run_err : Option Err) (c : Client) → IsPhased (finish config run_err c)
unfolding finish
finish-IsPhased config run_err c = record {
  ok =
      subst (IsOk c.is_started (results_in c.event_ch) (ticks_in c.event_ch))
        (sym (shutdown-phase config run_err c.loop))
        (off-IsOk c.is_started (results_in c.event_ch) (ticks_in c.event_ch) _ refl
          (λ e. absurd (absurd_bool e)));
  ended = λ e. ap Phase.cancelled (shutdown-phase config run_err c.loop);
}
