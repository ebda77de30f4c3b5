-- ===== src/Socket/Phased.antt =====
-- internal/core/pkg/wsrefact_v5/client.go: the phase of a client over its steps.
use custom_hts_legacy.Socket.Queries.{with_queries, ask-keeps, get_keys-keeps, give_up-keeps}
use custom_hts_legacy.Socket.Loop.{snapshot_keys}
use custom_hts_legacy.Prelude.{
  ℕ, suc, ◌+◌, ◌≡◌, refl, sym, ◌∙◌, ap, subst, true, false, ◌&&◌, ◌||◌, not, Option, none, some,
  List, [], ◌∷◌, ◌++◌, arith, ltb, ◌==◌, nat_eq, inl, inr, length, Bool-cases, is_some, if_true,
  if_false,
}
use custom_hts_legacy.Socket.Intents.{Err}
use custom_hts_legacy.Socket.State.{ConnState, Config, Loop}
use custom_hts_legacy.Socket.Workers.{worker_step, handle_ping}
use custom_hts_legacy.Socket.Loop.{
  with_state, Event, dial_result, reconnect_tick, handler_failed, read_failed, worker_failed,
  start_dial, handle_event,
}
use custom_hts_legacy.Socket.Phases.{bit, Phase, phase_of, worker-phase, ping-phase}
use custom_hts_legacy.Socket.Progress.{
  IsOk, bit_zero, is_result, is_tick, results_in, ticks_in, results_in-append, ticks_in-append,
  absurd_bool, start_dial-phase, started-IsOk,
}
use custom_hts_legacy.Socket.Client.{
  Client, new_client, Call, event_of, sends, subscribes, unsubscribes, asks, gets, gives_up,
  with_loop, push, publish_public, make_call, run, stop, after_event, handle_first, handle_next,
  see_stop, publish_internal, has, drop, without_dial, without_timer, end_dial, end_timer, quit,
  Step, calls, runs, stops, sees_stop, handles, works, pings, dials, ticks, quits, handler_fails,
  read_fails, write_fails, step, steps,
}
use custom_hts_legacy.Socket.Steady.{IsPhased, off-IsOk, finish-IsPhased, event-IsOk}

-- What a step puts into the channel.
push-IsPhased :
    (event : Event) (c : Client)
    → IsOk c.is_started
        (results_in c.event_ch + is_result event)
        (ticks_in c.event_ch + is_tick event)
        (phase_of c.loop)
    → (c.is_finished ≡ true → c.loop.cancelled ≡ true)
    → IsPhased (push event c)
push-IsPhased event c k e = record {
  ok =
      subst (λ n. IsOk c.is_started n (ticks_in (c.event_ch ++ (event ∷ []))) (phase_of c.loop))
        (sym (results_in-append c.event_ch event))
        (subst
          (λ n. IsOk c.is_started (results_in c.event_ch + is_result event) n (phase_of c.loop))
          (sym (ticks_in-append c.event_ch event)) k);
  ended = e;
}

-- An event that is neither a dial's result nor a tick.
push_plain-IsPhased :
    (event : Event) (c : Client)
    → is_result event ≡ 0
    → is_tick event ≡ 0
    → IsPhased c
    → IsPhased (push event c)
push_plain-IsPhased event c no_result no_tick p =
    push-IsPhased event c
      (subst (λ n. IsOk c.is_started n (ticks_in c.event_ch + is_tick event) (phase_of c.loop))
        (omega (arith, no_result))
        (subst (λ n. IsOk c.is_started (results_in c.event_ch) n (phase_of c.loop))
          (omega (arith, no_tick)) p.ok))
      p.ended

call_plain :
    (call : Call) (handle : ℕ)
    → (is_result (event_of call handle) ≡ 0) × (is_tick (event_of call handle) ≡ 0)
call_plain (sends frame) handle = (refl, refl)
call_plain (subscribes key options) handle = (refl, refl)
call_plain (unsubscribes key) handle = (refl, refl)

length-drop : (n : ℕ) (ns : List ℕ) → has n ns ≡ true → suc (length (drop n ns)) ≡ length ns
length-drop n [] h = cc
length-drop n (m ∷ ns) h = elim (Bool-cases (m == n)) [
  | inl same ↦ rw same refl
  | inr apart ↦ rw apart (ap suc (length-drop n ns (rw apart at h)))
]

module _ (config : Config) (c : Client) (p : IsPhased c) where
  same_phase : (l : Loop) → phase_of l ≡ phase_of c.loop → IsPhased (with_loop l c)
  same_phase l e = record {
    ok = subst (IsOk c.is_started (results_in c.event_ch) (ticks_in c.event_ch)) (sym e) p.ok;
    ended = λ f. ap Phase.cancelled e ∙ p.ended f;
  }

  call-IsPhased : (call : Call) → IsPhased (make_call config call c)
  unfolding make_call publish_public
  call-IsPhased call =
      let (no_result, no_tick) = call_plain call c.next_handle in
      let numbered : IsPhased (record c { next_handle = c.next_handle + 1 }) = record {
        ok = p.ok;
        ended = p.ended;
      } in
      elim (Bool-cases (not c.is_started || c.loop.cancelled)) [
        | inl shut ↦
            if_true IsPhased (not c.is_started || c.loop.cancelled) _ _ shut
              (record { ok = p.ok; ended = p.ended })
        | inr live ↦
            if_false IsPhased (not c.is_started || c.loop.cancelled) _ _ live
              (elim (Bool-cases (ltb (length c.event_ch) config.event_queue_size)) [
                | inl room ↦
                    if_true IsPhased (ltb (length c.event_ch) config.event_queue_size) _ _ room (
                      push_plain-IsPhased (event_of call c.next_handle)
                        (record c { next_handle = c.next_handle + 1 }) no_result no_tick numbered)
                | inr packed ↦
                    if_false IsPhased (ltb (length c.event_ch) config.event_queue_size) _ _ packed
                      (record { ok = p.ok; ended = p.ended })
              ])
      ]

  internal-IsPhased :
      (event : Event)
      → is_result event ≡ 0
      → is_tick event ≡ 0
      → IsPhased (publish_internal config event c)
  unfolding publish_internal
  internal-IsPhased event no_result no_tick =
      elim (Bool-cases (ltb (length c.event_ch) config.event_queue_size)) [
        | inl room ↦
            if_true IsPhased (ltb (length c.event_ch) config.event_queue_size) _ _ room
              (push_plain-IsPhased event c no_result no_tick p)
        | inr packed ↦
            if_false IsPhased (ltb (length c.event_ch) config.event_queue_size) _ _ packed p
      ]

  stop-IsPhased : IsPhased (stop c)
  unfolding stop
  stop-IsPhased = record {
    ok = off-IsOk c.is_started (results_in c.event_ch) (ticks_in c.event_ch) _ refl p.ok.up_live;
    ended = λ f. refl;
  }

  see_stop-IsPhased : IsPhased (see_stop config c)
  unfolding see_stop
  see_stop-IsPhased = elim (Bool-cases (c.is_started && not c.is_finished && c.loop.cancelled)) [
    | inl seen ↦
        if_true IsPhased (c.is_started && not c.is_finished && c.loop.cancelled) _ _ seen
          (finish-IsPhased config none c)
    | inr not_yet ↦
        if_false IsPhased (c.is_started && not c.is_finished && c.loop.cancelled) _ _ not_yet p
  ]

  end_dial-IsPhased :
      (attempt : ℕ) (outcome : Option Err) → IsPhased (end_dial config attempt outcome c)
  unfolding end_dial
  end_dial-IsPhased attempt outcome =
      let test = has attempt c.loop.dials && ltb (length c.event_ch) config.event_queue_size in
      elim (Bool-cases test) [
        | inr no_room ↦ if_false IsPhased test _ _ no_room p
        | inl room ↦ if_true IsPhased test _ _ room (
            push-IsPhased (dial_result attempt outcome) (without_dial attempt c)
              (record {
                dials_ok = λ e.
                    omega (arith, p.ok.dials_ok e, length-drop attempt c.loop.dials (ground arith));
                ticks_ok = λ e. omega (arith, p.ok.ticks_ok e);
                one = p.ok.one;
                up_live = p.ok.up_live;
                routed_up = p.ok.routed_up;
              })
              p.ended)
      ]

  end_timer-IsPhased : (attempt : ℕ) → IsPhased (end_timer config attempt c)
  unfolding end_timer
  end_timer-IsPhased attempt =
      let test = has attempt c.loop.timers && ltb (length c.event_ch) config.event_queue_size in
      elim (Bool-cases test) [
        | inr no_room ↦ if_false IsPhased test _ _ no_room p
        | inl room ↦ if_true IsPhased test _ _ room (
            push-IsPhased (reconnect_tick attempt) (without_timer attempt c)
              (record {
                dials_ok = λ e. omega (arith, p.ok.dials_ok e);
                ticks_ok = λ e.
                    omega
                      (arith, p.ok.ticks_ok e, length-drop attempt c.loop.timers (ground arith));
                one = p.ok.one;
                up_live = p.ok.up_live;
                routed_up = p.ok.routed_up;
              })
              p.ended)
      ]

  quit-IsPhased : (attempt : ℕ) → IsPhased (quit attempt c)
  unfolding quit
  quit-IsPhased attempt = elim (Bool-cases c.loop.cancelled) [
    | inr running ↦ if_false IsPhased c.loop.cancelled _ _ running p
    | inl off ↦ if_true IsPhased c.loop.cancelled _ _ off (record {
      ok = off-IsOk c.is_started (results_in c.event_ch) (ticks_in c.event_ch) _ off p.ok.up_live;
      ended = λ f. off;
    })
  ]

after-IsPhased :
    (config : Config) (c : Client) (o : Loop × Option Err)
    → c.is_finished ≡ false
    → IsOk c.is_started (results_in c.event_ch) (ticks_in c.event_ch) (phase_of o.0)
    → IsPhased (after_event config c o)
after-IsPhased config c (l, none) running k = record {
  ok = k;
  ended = λ f. absurd (absurd_bool (sym running ∙ f));
}
after-IsPhased config c (l, some e) running k = finish-IsPhased config (some e) (with_loop l c)

first-IsPhased :
    (config : Config) (now : ℕ) (es : List Event) (c : Client)
    → c.is_started ≡ true
    → c.is_finished ≡ false
    → c.event_ch ≡ es
    → IsPhased c
    → IsPhased (handle_first config now es c)
first-IsPhased config now [] c started running same p = p
first-IsPhased config now (event ∷ rest) c started running same p =
    let known : IsOk true (is_result event + results_in rest) (is_tick event + ticks_in rest)
        (phase_of c.loop) =
      subst (λ es. IsOk true (results_in es) (ticks_in es) (phase_of c.loop)) same
        (subst (λ b. IsOk b (results_in c.event_ch) (ticks_in c.event_ch) (phase_of c.loop)) started
          p.ok) in
    after-IsPhased config (record c { event_ch = rest }) (handle_event config now event c.loop)
      running
      (subst
        (λ b.
          IsOk b (results_in rest) (ticks_in rest)
            (phase_of (handle_event config now event c.loop).0))
        (sym started) (event-IsOk config now (results_in rest) (ticks_in rest) c.loop event known))

next-IsPhased :
    (config : Config) (now : ℕ) (c : Client) → IsPhased c → IsPhased (handle_next config now c)
unfolding handle_next
next-IsPhased config now c p = elim (Bool-cases (c.is_started && not c.is_finished)) [
  | inl running ↦
      if_true IsPhased (c.is_started && not c.is_finished) _ _ running
        (first-IsPhased config now c.event_ch c (ground arith) (ground arith) refl p)
  | inr not_running ↦ if_false IsPhased (c.is_started && not c.is_finished) _ _ not_running p
]

still_cancelled :
    (attempt : ℕ) (l : Loop) → l.cancelled ≡ true → (start_dial attempt l).cancelled ≡ true
unfolding start_dial
still_cancelled attempt l off =
    if_true (λ (x : Loop). x.cancelled ≡ true) (l.dialing || l.cancelled) _ _ (ground (arith, off))
      off

-- Before `Run`, nothing is under way.
run-IsPhased : (c : Client) → IsPhased c → IsPhased (run c)
unfolding run
run-IsPhased c p = elim (Bool-cases c.is_started) [
  | inl again ↦ if_true IsPhased c.is_started _ _ again p
  | inr first ↦
      let ready = with_state ConnState.reconnecting c.loop in
      let alone : c.loop.cancelled ≡ false
          → bit c.loop.dialing + bit c.loop.waiting_reconnect + bit (is_some c.loop.live) ≡ 0 =
        λ runs. p.ok.one runs ∙ ap bit first in
      if_false IsPhased c.is_started _ _ first (record {
        ok =
            subst (IsOk true (results_in c.event_ch) (ticks_in c.event_ch))
              (sym (start_dial-phase 0 ready))
              (started-IsOk (results_in c.event_ch) (ticks_in c.event_ch) (phase_of ready)
                (λ runs. (
                  omega (arith, p.ok.dials_ok runs, alone runs),
                  omega (arith, p.ok.ticks_ok runs, alone runs),
                  bit_zero c.loop.dialing (omega (arith, alone runs)),
                  bit_zero (is_some c.loop.live) (omega (arith, alone runs)),
                ))
                (λ runs. bit_zero c.loop.waiting_reconnect (omega (arith, alone runs)))
                (λ e. absurd (absurd_bool e))
                (λ runs e. absurd (
                  absurd_bool (
                    sym (bit_zero (is_some c.loop.live) (omega (arith, alone runs)))
                    ∙ p.ok.up_live (p.ok.routed_up runs e)))));
        ended = λ f. still_cancelled 0 ready (p.ended f);
      })
]

step-IsPhased : (config : Config) (s : Step) (c : Client) → IsPhased c → IsPhased (step config s c)
unfolding step
step-IsPhased config (calls call) c p = call-IsPhased config c p call
step-IsPhased config asks c p =
    ask-keeps IsPhased c (λ n w r. record { ok = p.ok; ended = p.ended }) config
      (λ n w r query.
        push_plain-IsPhased (snapshot_keys query) (with_queries n w r c) refl refl
          (record { ok = p.ok; ended = p.ended }))
step-IsPhased config (gets query) c p =
    get_keys-keeps IsPhased c (λ n w r. record { ok = p.ok; ended = p.ended }) query
step-IsPhased config (gives_up query) c p =
    give_up-keeps IsPhased c (λ n w r. record { ok = p.ok; ended = p.ended }) query
step-IsPhased config runs c p = run-IsPhased c p
step-IsPhased config stops c p = stop-IsPhased config c p
step-IsPhased config sees_stop c p = see_stop-IsPhased config c p
step-IsPhased config (handles now) c p = next-IsPhased config now c p
step-IsPhased config (works id) c p =
    same_phase config c p (worker_step config id c.loop) (worker-phase config id c.loop)
step-IsPhased config (pings id) c p =
    same_phase config c p (handle_ping config id c.loop) (ping-phase config id c.loop)
step-IsPhased config (dials attempt outcome) c p = end_dial-IsPhased config c p attempt outcome
step-IsPhased config (ticks attempt) c p = end_timer-IsPhased config c p attempt
step-IsPhased config (quits attempt) c p = quit-IsPhased config c p attempt
step-IsPhased config (handler_fails id e) c p =
    internal-IsPhased config c p (handler_failed id e) refl refl
step-IsPhased config (read_fails id e) c p =
    internal-IsPhased config c p (read_failed id e) refl refl
step-IsPhased config (write_fails id e) c p =
    internal-IsPhased config c p (worker_failed id e) refl refl

steps_from-IsPhased :
    (config : Config) (ss : List Step) (c : Client) → IsPhased c → IsPhased (steps config ss c)
unfolding steps
steps_from-IsPhased config [] c p = p
steps_from-IsPhased config (s ∷ ss) c p =
    steps_from-IsPhased config ss (step config s c) (step-IsPhased config s c p)

new-IsPhased : IsPhased new_client
unfolding new_client
new-IsPhased = record {
  ok = record {
    dials_ok = λ runs. refl;
    ticks_ok = λ runs. refl;
    one = λ runs. refl;
    up_live = λ e. e;
    routed_up = λ runs e. e;
  };
  ended = λ f. absurd (absurd_bool f);
}

-- Whatever a client's callers, its loop, its workers and the network do, in any order: until the client is
-- stopped, a client that runs has one dial in flight or ended, one backoff timer running or expired, or one live
-- connection, and one of these only; a connected client has a live connection, and routes writes only when
-- connected; a client whose run has returned is stopped.
pub steps-IsPhased : (config : Config) (ss : List Step) → IsPhased (steps config ss new_client)
steps-IsPhased config ss = steps_from-IsPhased config ss new_client new-IsPhased
