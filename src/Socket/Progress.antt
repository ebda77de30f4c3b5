-- ===== src/Socket/Progress.antt =====
-- internal/core/pkg/wsrefact_v5/client.go: the phases of a client over its steps.
use custom_hts_legacy.Prelude.{
  ℕ, suc, ◌+◌, ◌≤◌, ◌≡◌, refl, sym, ◌∙◌, ap, subst, Bool, true, false, ◌&&◌, ◌||◌, Option, List, [],
  ◌∷◌, ◌++◌, arith, nat_eq, if◌then◌else◌, inl, inr, length, Bool-cases, Option-cases, is_some,
  if_true, if_false,
}
use custom_hts_legacy.Socket.Intents.{Err}
use custom_hts_legacy.Socket.State.{Config, Loop}
use custom_hts_legacy.Socket.Loop.{
  Event, dial_result, reconnect_tick, start_dial, enter_backoff, handle_dial_result, is_live,
  handle_read_error, handle_worker_failure, handle_tick,
}
use custom_hts_legacy.Socket.Phases.{
  bit, Phase, phase_of, scheduled, released, IsDialed, backoff-phase, dialed-phase,
}

-- What holds of a phase, with the dial results and the ticks that wait in the event channel.
pub record IsOk (started : Bool) (results ticks : ℕ) (p : Phase) : Type 0 where
  pub dials_ok : p.cancelled ≡ false → p.dials + results ≡ bit p.dialing
  pub ticks_ok : p.cancelled ≡ false → p.timers + ticks ≡ bit p.waiting
  pub one : p.cancelled ≡ false → bit p.dialing + bit p.waiting + bit p.live ≡ bit started
  pub up_live : p.up ≡ true → p.live ≡ true
  pub routed_up : p.cancelled ≡ false → p.routed ≡ true → p.up ≡ true

pub absurd_bool : false ≡ true → ⊥
absurd_bool e = cc

bit_le : (b : Bool) → bit b ≤ 1
bit_le true = omega arith
bit_le false = omega arith

bit_one : (b : Bool) → bit b ≡ 1 → b ≡ true
bit_one true e = refl
bit_one false e = absurd (omega (arith, e))

pub bit_zero : (b : Bool) → bit b ≡ 0 → b ≡ false
bit_zero true e = absurd (omega (arith, e))
bit_zero false e = refl

-- A phase that has lost its connection, or whose dial has ended, waits.
scheduled-IsOk :
    (r t : ℕ) (p : Phase)
    → (p.cancelled ≡ false → p.dials + r ≡ 0)
    → (p.cancelled ≡ false → p.timers + t ≡ 0)
    → p.dialing ≡ false
    → (p.cancelled ≡ false → p.waiting ≡ false)
    → p.live ≡ false
    → p.up ≡ false
    → p.routed ≡ false
    → IsOk true r t (scheduled p)
scheduled-IsOk r t p no_dials no_timers idle fresh dead down closed =
    elim (Bool-cases (p.waiting || p.cancelled)) [
      | inl stays ↦
          let off : p.cancelled ≡ true = elim (Bool-cases p.cancelled) [
            | inl c ↦ c
            | inr runs ↦ absurd (absurd_bool (sym (rw (fresh runs) runs) ∙ stays))
          ] in
          if_true (IsOk true r t) (p.waiting || p.cancelled) _ _ stays (record {
            dials_ok = λ runs. absurd (absurd_bool (sym runs ∙ off));
            ticks_ok = λ runs. absurd (absurd_bool (sym runs ∙ off));
            one = λ runs. absurd (absurd_bool (sym runs ∙ off));
            up_live = λ e. absurd (absurd_bool (sym down ∙ e));
            routed_up = λ runs e. absurd (absurd_bool (sym closed ∙ e));
          })
      | inr waits ↦ if_false (IsOk true r t) (p.waiting || p.cancelled) _ _ waits (record {
        dials_ok = λ runs. no_dials runs ∙ sym (ap bit idle);
        ticks_ok = λ runs. omega (arith, no_timers runs);
        one = λ runs. omega (arith, ap bit idle, ap bit dead);
        up_live = λ e. absurd (absurd_bool (sym down ∙ e));
        routed_up = λ runs e. absurd (absurd_bool (sym closed ∙ e));
      })
    ]

-- The dial result is no longer in the channel, and no dial is in flight.
dialed-IsOk :
    (r t : ℕ) (p q : Phase)
    → IsOk true (suc r) t p
    → p.cancelled ≡ false
    → IsDialed (record p { dialing = false }) q
    → IsOk true r t q
dialed-IsOk r t p q k runs d =
    let dial : bit p.dialing ≡ 1 = omega (arith, k.dials_ok runs, bit_le p.dialing) in
    let quiet : p.waiting ≡ false = bit_zero p.waiting (omega (arith, k.one runs, dial)) in
    let dead : p.live ≡ false = bit_zero p.live (omega (arith, k.one runs, dial)) in
    let down : p.up ≡ false = elim (Bool-cases p.up) [
      | inr e ↦ e
      | inl e ↦ absurd (absurd_bool (sym dead ∙ k.up_live e))
    ] in
    let closed : p.routed ≡ false = elim (Bool-cases p.routed) [
      | inr e ↦ e
      | inl e ↦ absurd (absurd_bool (sym down ∙ k.routed_up runs e))
    ] in
    let dials0 : p.dials + r ≡ 0 = omega (arith, k.dials_ok runs, dial) in
    let timers0 : p.timers + t ≡ 0 = k.ticks_ok runs ∙ ap bit quiet in
    elim d [
      | inl e ↦ subst (IsOk true r t) (sym e) (
          scheduled-IsOk r t (record p { dialing = false }) (λ c. dials0) (λ c. timers0) refl
            (λ c. quiet) dead down closed)
      | inr (inl e) ↦
          subst (IsOk true r t) (sym e)
            (scheduled-IsOk r t _ (λ c. dials0) (λ c. timers0) refl (λ c. quiet) refl refl refl)
      | inr (inr e) ↦ subst (IsOk true r t) (sym e) (record {
        dials_ok = λ c. dials0;
        ticks_ok = λ c. k.ticks_ok runs;
        one = λ c. omega (arith, ap bit quiet);
        up_live = λ c. refl;
        routed_up = λ c e. refl;
      })
    ]

-- The live connection is lost.
lost-IsOk :
    (r t : ℕ) (p : Phase) → IsOk true r t p → p.live ≡ true → IsOk true r t (scheduled (released p))
lost-IsOk r t p k there = elim (Bool-cases p.cancelled) [
  | inr runs ↦
      let alone : bit p.dialing + bit p.waiting ≡ 0 = omega (arith, k.one runs, ap bit there) in
      let idle : p.dialing ≡ false = bit_zero p.dialing (omega (arith, alone)) in
      let quiet : p.waiting ≡ false = bit_zero p.waiting (omega (arith, alone)) in
      scheduled-IsOk r t (released p) (λ c. k.dials_ok c ∙ ap bit idle)
        (λ c. k.ticks_ok c ∙ ap bit quiet) idle (λ c. quiet) refl refl refl
  | inl off ↦ if_true (IsOk true r t) (p.waiting || p.cancelled) _ _ (ground (arith, off)) (record {
    dials_ok = λ runs. absurd (absurd_bool (sym runs ∙ off));
    ticks_ok = λ runs. absurd (absurd_bool (sym runs ∙ off));
    one = λ runs. absurd (absurd_bool (sym runs ∙ off));
    up_live = λ e. absurd (absurd_bool e);
    routed_up = λ runs e. absurd (absurd_bool e);
  })
]

-- The results of dials, and the ticks, in the event channel.
abbrev pub is_result : Event → ℕ
is_result (dial_result attempt outcome) = 1
is_result _ = 0

abbrev pub is_tick : Event → ℕ
is_tick (reconnect_tick attempt) = 1
is_tick _ = 0

abbrev pub results_in : List Event → ℕ
results_in [] = 0
results_in (e ∷ es) = is_result e + results_in es

abbrev pub ticks_in : List Event → ℕ
ticks_in [] = 0
ticks_in (e ∷ es) = is_tick e + ticks_in es

pub results_in-append :
    (es : List Event) (e : Event) → results_in (es ++ (e ∷ [])) ≡ results_in es + is_result e
results_in-append [] e = omega arith
results_in-append (d ∷ es) e = omega (arith, results_in-append es e)

pub ticks_in-append :
    (es : List Event) (e : Event) → ticks_in (es ++ (e ∷ [])) ≡ ticks_in es + is_tick e
ticks_in-append [] e = omega arith
ticks_in-append (d ∷ es) e = omega (arith, ticks_in-append es e)

abbrev pub dial_started : Phase → Phase
dial_started p =
    if p.dialing || p.cancelled then p else record p { dialing = true; dials = suc p.dials }

pub start_dial-phase :
    (attempt : ℕ) (l : Loop) → phase_of (start_dial attempt l) ≡ dial_started (phase_of l)
unfolding start_dial
start_dial-phase attempt l = elim (Bool-cases (l.dialing || l.cancelled)) [
  | inl stays ↦
      if_true (λ x. phase_of x ≡ dial_started (phase_of l)) (l.dialing || l.cancelled) _ _ stays
        (sym (if_true (λ x. x ≡ phase_of l) (l.dialing || l.cancelled) _ _ stays refl))
  | inr starts ↦
      if_false (λ x. phase_of x ≡ dial_started (phase_of l)) (l.dialing || l.cancelled) _ _ starts
        (sym (
          if_false
            (λ (x : Phase).
              x ≡ record (phase_of l) { dialing = true; dials = suc (length l.dials) })
            (l.dialing || l.cancelled) _ _ starts refl))
]

-- A dial starts where nothing else is under way.
pub started-IsOk :
    (r t : ℕ) (p : Phase)
    → (p.cancelled ≡ false
        → (p.dials + r ≡ 0) × (p.timers + t ≡ 0) × (p.dialing ≡ false) × (p.live ≡ false))
    → (p.cancelled ≡ false → p.waiting ≡ false)
    → (p.up ≡ true → p.live ≡ true)
    → (p.cancelled ≡ false → p.routed ≡ true → p.up ≡ true)
    → IsOk true r t (dial_started p)
started-IsOk r t p idle quiet up routed = elim (Bool-cases p.cancelled) [
  | inl off ↦ if_true (IsOk true r t) (p.dialing || p.cancelled) _ _ (ground (arith, off)) (record {
    dials_ok = λ runs. absurd (absurd_bool (sym runs ∙ off));
    ticks_ok = λ runs. absurd (absurd_bool (sym runs ∙ off));
    one = λ runs. absurd (absurd_bool (sym runs ∙ off));
    up_live = up;
    routed_up = routed;
  })
  | inr runs ↦
      let (dials0, timers0, none_there, dead) = idle runs in
      if_false (IsOk true r t) (p.dialing || p.cancelled) _ _ (ground (arith, none_there, runs))
        (record {
          dials_ok = λ c. omega (arith, dials0);
          ticks_ok = λ c. timers0 ∙ sym (ap bit (quiet c));
          one = λ c. omega (arith, ap bit (quiet c), ap bit dead);
          up_live = up;
          routed_up = routed;
        })
]

-- Whoever waits for a tick has no connection.
ticked-IsOk :
    (r t : ℕ) (p : Phase)
    → IsOk true r (suc t) p
    → IsOk true r t (dial_started (record p { waiting = false }))
ticked-IsOk r t p k =
    started-IsOk r t (record p { waiting = false })
      (λ runs.
        let wait : bit p.waiting ≡ 1 = omega (arith, k.ticks_ok runs, bit_le p.waiting) in
        let idle : bit p.dialing ≡ 0 = omega (arith, k.one runs, wait) in
        (
          k.dials_ok runs ∙ idle,
          omega (arith, k.ticks_ok runs, wait),
          bit_zero p.dialing idle,
          bit_zero p.live (omega (arith, k.one runs, wait)),
        ))
      (λ runs. refl) k.up_live k.routed_up

-- A connection that takes no more writes is still there.
closed-IsOk : (r t : ℕ) (p : Phase) → IsOk true r t p → IsOk true r t (record p { routed = false })
closed-IsOk r t p k = record {
  dials_ok = k.dials_ok;
  ticks_ok = k.ticks_ok;
  one = k.one;
  up_live = k.up_live;
  routed_up = λ runs e. absurd (absurd_bool e);
}

pub is_live-some : (id : ℕ) (l : Loop) → is_live id l ≡ true → is_some l.live ≡ true
is_live-some id l e = elim (Option-cases l.live) [
  | inl none_of ↦ absurd (absurd_bool (rw none_of at e))
  | inr (live, there) ↦ rw there refl
]

module _ (config : Config) (now r t : ℕ) (l : Loop) where
  pub kept :
      (l' : Loop)
      → IsOk true r t (phase_of l)
      → phase_of l' ≡ phase_of l
      → IsOk true r t (phase_of l')
  kept l' k same = subst (IsOk true r t) (sym same) k

  pub backed_off :
      (e : Err)
      → IsOk true r t (phase_of l)
      → is_some l.live ≡ true
      → IsOk true r t (phase_of (enter_backoff e 1 l))
  backed_off e k there =
      subst (IsOk true r t) (sym (backoff-phase config e 1 l)) (lost-IsOk r t (phase_of l) k there)

  pub read_error-IsOk :
      (id : ℕ) (e : Err)
      → IsOk true r t (phase_of l)
      → IsOk true r t (phase_of (handle_read_error id e l))
  unfolding handle_read_error
  read_error-IsOk id e k = elim (Bool-cases (is_live id l)) [
    | inl there ↦
        if_true (λ x. IsOk true r t (phase_of x)) (is_live id l) _ _ there
          (backed_off e k (is_live-some id l there))
    | inr stale ↦ if_false (λ x. IsOk true r t (phase_of x)) (is_live id l) _ _ stale k
  ]

  pub failure-IsOk :
      (id : ℕ) (e : Err)
      → IsOk true r t (phase_of l)
      → IsOk true r t (phase_of (handle_worker_failure id e l))
  unfolding handle_worker_failure
  failure-IsOk id e k = elim (Bool-cases (is_live id l && l.routing_open)) [
    | inl there ↦
        if_true (λ x. IsOk true r t (phase_of x)) (is_live id l && l.routing_open) _ _ there
          (closed-IsOk r t (phase_of l) k)
    | inr stale ↦
        if_false (λ x. IsOk true r t (phase_of x)) (is_live id l && l.routing_open) _ _ stale k
  ]

  pub tick-IsOk :
      (attempt : ℕ)
      → IsOk true r (suc t) (phase_of l)
      → IsOk true r t (phase_of (handle_tick attempt l))
  unfolding handle_tick
  tick-IsOk attempt k =
      subst (IsOk true r t)
        (sym (start_dial-phase attempt (record l { waiting_reconnect = false })))
        (ticked-IsOk r t (phase_of l) k)

  pub result-IsOk :
      (attempt : ℕ) (outcome : Option Err)
      → IsOk true (suc r) t (phase_of l)
      → IsOk true r t (phase_of (handle_dial_result config now attempt outcome l))
  unfolding handle_dial_result
  result-IsOk attempt outcome k = elim (Bool-cases l.cancelled) [
    | inl off ↦
        if_true (λ x. IsOk true r t (phase_of x)) l.cancelled _ _ off
          (record {
            dials_ok = λ runs. absurd (absurd_bool (sym runs ∙ off));
            ticks_ok = λ runs. absurd (absurd_bool (sym runs ∙ off));
            one = λ runs. absurd (absurd_bool (sym runs ∙ off));
            up_live = k.up_live;
            routed_up = k.routed_up;
          })
    | inr runs ↦
        if_false (λ x. IsOk true r t (phase_of x)) l.cancelled _ _ runs
          (dialed-IsOk r t (phase_of l) _ k runs
            (dialed-phase config now attempt outcome (record l { dialing = false })))
  ]
