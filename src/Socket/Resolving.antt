-- ===== src/Socket/Resolving.antt =====
-- internal/core/pkg/wsrefact_v5: the calls of a client over its steps.
use custom_hts_legacy.Socket.Queries.{with_queries, ask-keeps, get_keys-keeps, give_up-keeps}
use custom_hts_legacy.Socket.Loop.{snapshot_keys}
use custom_hts_legacy.Prelude.{
  ℕ, ◌+◌, ◌≡◌, refl, ap, Bool, true, false, ◌&&◌, ◌||◌, not, Option, none, some, List, [], ◌∷◌,
  ◌++◌, arith, ltb, nat_beq_iff, ◌==◌, nat_eq, if◌then◌else◌, inl, inr, length, Bool-cases, if_true,
  if_false,
}
use custom_hts_legacy.Prelude.Maps.{lookup}
use custom_hts_legacy.Socket.State.{ConnState, Reply, Config, Loop, resolve}
use custom_hts_legacy.Socket.Intents.{Err}
use custom_hts_legacy.Socket.Workers.{worker_step, handle_ping}
use custom_hts_legacy.Socket.Loop.{
  Event, dial_result, reconnect_tick, handler_failed, read_failed, worker_failed, with_state,
  handle_event, start_dial,
}
use custom_hts_legacy.Socket.Phases.{bit}
use custom_hts_legacy.Socket.Counts.{load, IsKept, same-IsKept, zero_trans, resolve-IsKept}
use custom_hts_legacy.Socket.Replies.{worker-IsKept, ping-IsKept}
use custom_hts_legacy.Socket.Client.{
  Client, new_client, Call, event_of, sends, subscribes, unsubscribes, asks, gets, gives_up,
  with_loop, push, publish_public, make_call, run, stop, finish, after_event, handle_first,
  handle_next, see_stop, publish_internal, has, without_dial, without_timer, end_dial, end_timer,
  quit, Step, calls, runs, stops, sees_stop, handles, works, pings, dials, ticks, quits,
  handler_fails, read_fails, write_fails, step, steps,
}
use custom_hts_legacy.Socket.Progress.{absurd_bool}
use custom_hts_legacy.Socket.Once.{
  start_dial-IsKept, Numbered, kept-Numbered, waits_as, event-IsMoved, shutdown-IsKept,
}

abbrev pub count_events : ℕ → List Event → ℕ
count_events h [] = 0
count_events h (e ∷ es) = waits_as h e + count_events h es

pub count_events-append :
    (h : ℕ) (es : List Event) (e : Event)
    → count_events h (es ++ (e ∷ [])) ≡ count_events h es + waits_as h e
count_events-append h [] e = omega arith
count_events-append h (d ∷ es) e = omega (arith, count_events-append h es e)

bit_next : (h n : ℕ) → bit (ltb h (n + 1)) ≡ bit (ltb h n) + bit (n == h)
bit_next h n = elim (Bool-cases (n == h)) [
  | inl same ↦ ground (arith, (nat_beq_iff n h).0 same)
  | inr apart ↦ ground (arith, nat_beq_iff n h)
]

-- Every call of `Send`, `Subscribe` and `Unsubscribe` has one place: a result, a write in a worker's queue, or an event in the channel.
pub record IsCounted (c : Client) : Type 0 where
  pub total : (h : ℕ) → load h c.loop + count_events h c.event_ch ≡ bit (ltb h c.next_handle)
  pub numbered : Numbered c.loop

module _ (config : Config) (c : Client) (p : IsCounted c) where
  same_load : (l : Loop) → ((h : ℕ) → IsKept h 0 c.loop l) → IsCounted (with_loop l c)
  same_load l k = record {
    total = λ h. omega (arith, p.total h, (k h).counted);
    numbered = kept-Numbered (k 0) p.numbered;
  }

  finish-IsCounted : (run_err : Option Err) → IsCounted (finish config run_err c)
  unfolding finish
  finish-IsCounted run_err = record {
    total = λ h. omega (arith, p.total h, (shutdown-IsKept config h run_err c.loop).counted);
    numbered = kept-Numbered (shutdown-IsKept config 0 run_err c.loop) p.numbered;
  }

  push-IsCounted : (event : Event) → ((h : ℕ) → waits_as h event ≡ 0) → IsCounted (push event c)
  push-IsCounted event quiet = record {
    total = λ h. omega (arith, p.total h, count_events-append h c.event_ch event, quiet h);
    numbered = p.numbered;
  }

  internal-IsCounted :
      (event : Event)
      → ((h : ℕ) → waits_as h event ≡ 0)
      → IsCounted (publish_internal config event c)
  unfolding publish_internal
  internal-IsCounted event quiet =
      elim (Bool-cases (ltb (length c.event_ch) config.event_queue_size)) [
        | inl room ↦
            if_true IsCounted (ltb (length c.event_ch) config.event_queue_size) _ _ room
              (push-IsCounted event quiet)
        | inr packed ↦
            if_false IsCounted (ltb (length c.event_ch) config.event_queue_size) _ _ packed p
      ]

  refused-IsCounted :
      (reply : Reply)
      → IsCounted
          (record c { next_handle = c.next_handle + 1; loop = resolve c.next_handle reply c.loop })
  refused-IsCounted reply = record {
    total = λ h. omega (
      arith,
      p.total h,
      (resolve-IsKept h c.next_handle reply c.loop).counted,
      bit_next h c.next_handle,
    );
    numbered = p.numbered;
  }

  event_of_waits : (call : Call) (i h : ℕ) → waits_as h (event_of call i) ≡ bit (i == h)
  event_of_waits (sends frame) i h = refl
  event_of_waits (subscribes key options) i h = refl
  event_of_waits (unsubscribes key) i h = refl

  call-IsCounted : (call : Call) → IsCounted (make_call config call c)
  unfolding make_call publish_public
  call-IsCounted call = elim (Bool-cases (not c.is_started || c.loop.cancelled)) [
    | inl shut ↦
        if_true IsCounted (not c.is_started || c.loop.cancelled) _ _ shut (refused-IsCounted _)
    | inr live ↦
        if_false IsCounted (not c.is_started || c.loop.cancelled) _ _ live
          (elim (Bool-cases (ltb (length c.event_ch) config.event_queue_size)) [
            | inl room ↦
                if_true IsCounted (ltb (length c.event_ch) config.event_queue_size) _ _ room
                  (record {
                    total = λ h. omega (
                      arith,
                      p.total h,
                      count_events-append h c.event_ch (event_of call c.next_handle),
                      event_of_waits call c.next_handle h,
                      bit_next h c.next_handle,
                    );
                    numbered = p.numbered;
                  })
            | inr packed ↦
                if_false IsCounted (ltb (length c.event_ch) config.event_queue_size) _ _ packed
                  (refused-IsCounted _)
          ])
  ]

  run-IsCounted : IsCounted (run c)
  unfolding run
  run-IsCounted = elim (Bool-cases c.is_started) [
    | inl again ↦ if_true IsCounted c.is_started _ _ again p
    | inr first ↦
        let ready = with_state ConnState.reconnecting c.loop in
        let k : (h : ℕ) → IsKept h 0 c.loop (start_dial 0 ready) = λ h.
          zero_trans (same-IsKept h c.loop ready refl refl refl)
            (start_dial-IsKept config h 0 ready) in
        if_false IsCounted c.is_started _ _ first (record {
          total = λ h. omega (arith, p.total h, (k h).counted);
          numbered = kept-Numbered (k 0) p.numbered;
        })
  ]

  without-IsCounted :
      (l : Loop)
      → l.results ≡ c.loop.results
      → l.transports ≡ c.loop.transports
      → l.next_transport ≡ c.loop.next_transport
      → IsCounted (with_loop l c)
  without-IsCounted l e f g = same_load l (λ h. same-IsKept h c.loop l e f g)

  see_stop-IsCounted : IsCounted (see_stop config c)
  unfolding see_stop
  see_stop-IsCounted = elim (Bool-cases (c.is_started && not c.is_finished && c.loop.cancelled)) [
    | inl seen ↦
        if_true IsCounted (c.is_started && not c.is_finished && c.loop.cancelled) _ _ seen
          (finish-IsCounted none)
    | inr not_yet ↦
        if_false IsCounted (c.is_started && not c.is_finished && c.loop.cancelled) _ _ not_yet p
  ]

  quit-IsCounted : (attempt : ℕ) → IsCounted (quit attempt c)
  unfolding quit
  quit-IsCounted attempt = elim (Bool-cases c.loop.cancelled) [
    | inr running ↦ if_false IsCounted c.loop.cancelled _ _ running p
    | inl off ↦
        if_true IsCounted c.loop.cancelled _ _ off
          (record { total = p.total; numbered = p.numbered })
  ]

quiet_push :
    (config : Config) (event : Event) (c c' : Client) (test : Bool)
    → ((h : ℕ) → waits_as h event ≡ 0)
    → IsCounted c
    → IsCounted c'
    → IsCounted (if test then push event c' else c)
quiet_push config event c c' true quiet p q = push-IsCounted config c' q event quiet
quiet_push config event c c' false quiet p q = p

end_dial-IsCounted :
    (config : Config) (attempt : ℕ) (outcome : Option Err) (c : Client)
    → IsCounted c
    → IsCounted (end_dial config attempt outcome c)
unfolding end_dial
end_dial-IsCounted config attempt outcome c p =
    quiet_push config (dial_result attempt outcome) c (without_dial attempt c)
      (has attempt c.loop.dials && ltb (length c.event_ch) config.event_queue_size) (λ h. refl) p
      (record { total = p.total; numbered = p.numbered })

end_timer-IsCounted :
    (config : Config) (attempt : ℕ) (c : Client)
    → IsCounted c
    → IsCounted (end_timer config attempt c)
unfolding end_timer
end_timer-IsCounted config attempt c p =
    quiet_push config (reconnect_tick attempt) c (without_timer attempt c)
      (has attempt c.loop.timers && ltb (length c.event_ch) config.event_queue_size) (λ h. refl) p
      (record { total = p.total; numbered = p.numbered })

after-IsCounted :
    (config : Config) (c : Client) (o : Loop × Option Err)
    → ((h : ℕ) → load h o.0 + count_events h c.event_ch ≡ bit (ltb h c.next_handle))
    → Numbered o.0
    → IsCounted (after_event config c o)
after-IsCounted config c (l, none) total numbered = record { total = total; numbered = numbered }
after-IsCounted config c (l, some e) total numbered =
    finish-IsCounted config (with_loop l c) (record { total = total; numbered = numbered }) (some e)

first-IsCounted :
    (config : Config) (now : ℕ) (es : List Event) (c : Client)
    → c.event_ch ≡ es
    → IsCounted c
    → IsCounted (handle_first config now es c)
first-IsCounted config now [] c same p = p
first-IsCounted config now (event ∷ rest) c same p =
    after-IsCounted config (record c { event_ch = rest }) (handle_event config now event c.loop)
      (λ h. omega (
        arith,
        p.total h,
        ap (count_events h) same,
        (event-IsMoved config h now c.loop p.numbered event).0,
      ))
      (event-IsMoved config 0 now c.loop p.numbered event).1

next-IsCounted :
    (config : Config) (now : ℕ) (c : Client) → IsCounted c → IsCounted (handle_next config now c)
unfolding handle_next
next-IsCounted config now c p = elim (Bool-cases (c.is_started && not c.is_finished)) [
  | inl running ↦
      if_true IsCounted (c.is_started && not c.is_finished) _ _ running
        (first-IsCounted config now c.event_ch c refl p)
  | inr not_running ↦ if_false IsCounted (c.is_started && not c.is_finished) _ _ not_running p
]

step-IsCounted :
    (config : Config) (s : Step) (c : Client) → IsCounted c → IsCounted (step config s c)
unfolding step stop
step-IsCounted config (calls call) c p = call-IsCounted config c p call
step-IsCounted config runs c p = run-IsCounted config c p
step-IsCounted config asks c p =
    ask-keeps IsCounted c (λ n w r. record { total = p.total; numbered = p.numbered }) config
      (λ n w r query.
        push-IsCounted config (with_queries n w r c)
          (record { total = p.total; numbered = p.numbered }) (snapshot_keys query) (λ h. refl))
step-IsCounted config (gets query) c p =
    get_keys-keeps IsCounted c (λ n w r. record { total = p.total; numbered = p.numbered }) query
step-IsCounted config (gives_up query) c p =
    give_up-keeps IsCounted c (λ n w r. record { total = p.total; numbered = p.numbered }) query
step-IsCounted config stops c p = record { total = p.total; numbered = p.numbered }
step-IsCounted config sees_stop c p = see_stop-IsCounted config c p
step-IsCounted config (handles now) c p = next-IsCounted config now c p
step-IsCounted config (works id) c p =
    same_load config c p (worker_step config id c.loop) (λ h. worker-IsKept config h id c.loop)
step-IsCounted config (pings id) c p =
    same_load config c p (handle_ping config id c.loop) (λ h. ping-IsKept config h id c.loop)
step-IsCounted config (dials attempt outcome) c p = end_dial-IsCounted config attempt outcome c p
step-IsCounted config (ticks attempt) c p = end_timer-IsCounted config attempt c p
step-IsCounted config (quits attempt) c p = quit-IsCounted config c p attempt
step-IsCounted config (handler_fails id e) c p =
    internal-IsCounted config c p (handler_failed id e) (λ h. refl)
step-IsCounted config (read_fails id e) c p =
    internal-IsCounted config c p (read_failed id e) (λ h. refl)
step-IsCounted config (write_fails id e) c p =
    internal-IsCounted config c p (worker_failed id e) (λ h. refl)

pub steps_from-IsCounted :
    (config : Config) (ss : List Step) (c : Client) → IsCounted c → IsCounted (steps config ss c)
unfolding steps
steps_from-IsCounted config [] c p = p
steps_from-IsCounted config (s ∷ ss) c p =
    steps_from-IsCounted config ss (step config s c) (step-IsCounted config s c p)

new-IsCounted : IsCounted new_client
unfolding new_client lookup
new-IsCounted = record {
  total = λ h. ground arith;
  numbered = λ id there. absurd (absurd_bool there);
}

-- Whatever a client's callers, its loop, its workers and the network do, in any order, each call of `Send`,
-- `Subscribe` and `Unsubscribe` that was made is in one place: it was resolved, and once only, or it is a write in a worker's queue, or it is an event in the
-- channel; and no call is resolved that was not made.
pub steps-IsCounted : (config : Config) (ss : List Step) → IsCounted (steps config ss new_client)
steps-IsCounted config ss = steps_from-IsCounted config ss new_client new-IsCounted
