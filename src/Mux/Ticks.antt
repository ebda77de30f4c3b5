-- ===== src/Mux/Ticks.antt =====
-- Heartbeat ticks of internal/core/pkg/wsrefact_v6/mux.go that arrive after the connection was lost.
use custom_hts_legacy.Prelude.{
  ℕ, suc, ◌+◌, ◌%◌, ◌^◌, ◌<◌, ◌≤◌, ◌≡◌, refl, ◌⊎◌, inl, inr, true, false, none, some, List, [], ◌∷◌,
  ◌++◌, arith, length, Elem, Bool-cases, String, nat_beq,
}
use custom_hts_legacy.Prelude.Int.{pos, leb_ℤ}
use custom_hts_legacy.Mux.Types.{
  IoCommand, MuxSubscription, connected, MuxWorkerState, try_send, is_connected, is_stopped,
}
use custom_hts_legacy.Mux.Slot.{
  Slot, start_reconnect, handle_worker_ready, handle_ping_tick, close_worker, start_ping_ticker,
  ping_command, next_epoch, launch_ticker, cancel, offer_ping, run_replay, clear_dial_cancel,
}
use custom_hts_legacy.Mux.Loop.{take_command}
use custom_hts_legacy.Mux.Heartbeat.{Elem-cancel}

-- What can become of a worker's runtime: the connection is ready, or lost; a tick arrives; a command
-- handler writes into the mailbox or changes the desired keys; the worker takes a command; the shutdown.
pub data Happening : Type 0 where
  ready : List (String × MuxSubscription) → Happening
  lost : Happening
  ticks : ℕ → Happening
  offers : IoCommand → Happening
  desires : List String → Happening
  takes closes : Happening

-- The send of a command handler that has looked for room.
abbrev pub offer_command : IoCommand → Slot → Slot
offer_command c s = elim (try_send c s.worker.mailbox) [
  | none ↦ s
  | some b ↦ record s { worker = record (s.worker) { mailbox = b } }
]

unfoldable pub happen : ℕ → Happening → Slot → Slot
unfolding handle_worker_ready start_reconnect handle_ping_tick take_command close_worker try_send
happen i (ready subs) s = handle_worker_ready subs i s
happen i lost s = start_reconnect s
happen i (ticks epoch) s = handle_ping_tick epoch s
happen i (offers c) s = offer_command c s
happen i (desires keys) s = record s { worker = record (s.worker) { desired_keys = keys } }
happen i takes s = take_command s
happen i closes s = close_worker s

unfoldable pub happens : ℕ → List Happening → Slot → Slot
unfolding happen
happens i [] s = s
happens i (h ∷ hs) s = happens i hs (happen i h s)

-- The heartbeat with the number `epoch` has passed: `k` heartbeats were started since, and where there
-- was none the worker is not connected.
record Passed (epoch k : ℕ) (s : Slot) : Type 0 where
  beats : leb_ℤ s.worker.ping_interval (pos 0) ≡ false
  later : s.worker.heartbeat_epoch ≡ (epoch + k) % 2 ^ 64
  off : k ≡ 0 → is_connected s.worker.state ≡ false

-- A step starts at most one heartbeat.
abbrev Onward : ℕ → ℕ → Slot → Type 0
Onward epoch k s = Passed epoch k s ⊎ Passed epoch (suc k) s

stopped_off : (state : MuxWorkerState) → is_stopped state ≡ true → is_connected state ≡ false
stopped_off state over = ground arith

ready-Passed :
    (subs : List (String × MuxSubscription)) (i epoch k : ℕ) (s : Slot)
    → Passed epoch k s
    → Onward epoch k (handle_worker_ready subs i s)
unfolding handle_worker_ready run_replay clear_dial_cancel start_ping_ticker launch_ticker
ready-Passed subs i epoch k s p = elim (Bool-cases (is_stopped s.worker.state)) [
  | inl over ↦
      let off : is_connected s.worker.state ≡ false = stopped_off s.worker.state over in
      inl (record {
        beats = rw (over, off, handle_worker_ready, p.beats) p.beats;
        later = rw (over, off, handle_worker_ready, p.beats) p.later;
        off = rw (over, off, handle_worker_ready, p.beats) (λ z. off);
      })
  | inr live ↦
      let next : next_epoch s.worker.heartbeat_epoch ≡ (epoch + suc k) % 2 ^ 64 =
        omega (arith, p.later) in
      inr (record {
        beats = rw (live, handle_worker_ready, p.beats) p.beats;
        later = rw (live, handle_worker_ready, p.beats) next;
        off = λ z. absurd (omega (arith, z));
      })
]

happen-Passed :
    (h : Happening) (i epoch k : ℕ) (s : Slot) → Passed epoch k s → Onward epoch k (happen i h s)
unfolding happen start_reconnect handle_ping_tick take_command close_worker offer_ping
happen-Passed (ready subs) i epoch k s p = ready-Passed subs i epoch k s p
happen-Passed lost i epoch k s p = inl (record {
  beats = ground (arith, p.beats);
  later = ground (arith, p.later);
  off = λ z. ground (arith, p.off z);
})
happen-Passed (ticks e) i epoch k s p = inl (record {
  beats = ground (arith, p.beats);
  later = ground (arith, p.later);
  off = λ z. ground (arith, p.off z);
})
happen-Passed (offers c) i epoch k s p = inl (record {
  beats = ground (arith, p.beats);
  later = ground (arith, p.later);
  off = λ z. ground (arith, p.off z);
})
happen-Passed (desires keys) i epoch k s p =
    inl (record { beats = p.beats; later = p.later; off = p.off })
happen-Passed takes i epoch k s p = inl (record { beats = p.beats; later = p.later; off = p.off })
happen-Passed closes i epoch k s p =
    inl (record { beats = p.beats; later = p.later; off = λ z. refl })

happens-Passed :
    (hs : List Happening) (i epoch k : ℕ) (s : Slot)
    → Passed epoch k s
    → (n : ℕ) × (n ≤ k + length hs) × Passed epoch n (happens i hs s)
unfolding happens
happens-Passed [] i epoch k s p = (k, omega arith, p)
happens-Passed (h ∷ hs) i epoch k s p = elim (happen-Passed h i epoch k s p) [
  | inl same ↦
      let (n, few, q) = happens-Passed hs i epoch k (happen i h s) same in (n, omega arith, q)
  | inr more ↦
      let (n, few, q) = happens-Passed hs i epoch (suc k) (happen i h s) more in (n, omega arith, q)
]

Passed-drops :
    (epoch n : ℕ) (s : Slot)
    → epoch < 2 ^ 64
    → n < 2 ^ 64
    → Passed epoch n s
    → handle_ping_tick epoch s ≡ s
unfolding handle_ping_tick
Passed-drops epoch n s small few p = elim (Bool-cases (is_connected s.worker.state)) [
  | inr off ↦ rw (off, handle_ping_tick) refl
  | inl on ↦ elim (Bool-cases (nat_beq n 0)) [
    | inl zeroth ↦ absurd (cc (on, p.off (ground arith)))
    | inr some_later ↦
        let other : nat_beq epoch s.worker.heartbeat_epoch ≡ false =
          rw p.later (passed_ne epoch n small few some_later) in
        rw (on, handle_ping_tick, other) refl
  ]
]
  where
    passed_ne :
        (epoch n : ℕ)
        → epoch < 2 ^ 64
        → n < 2 ^ 64
        → nat_beq n 0 ≡ false
        → nat_beq epoch ((epoch + n) % 2 ^ 64) ≡ false
    passed_ne epoch n small few later = ground arith

lost-Passed :
    (s : Slot)
    → s.worker.state ≡ connected
    → leb_ℤ s.worker.ping_interval (pos 0) ≡ false
    → s.worker.heartbeat_epoch < 2 ^ 64
    → Passed s.worker.heartbeat_epoch 0 (start_reconnect s)
unfolding start_reconnect
lost-Passed s on beats small = record {
  beats = rw (on, start_reconnect) beats;
  later = rw (on, start_reconnect) (omega arith);
  off = λ z. rw (on, start_reconnect) refl;
}

tick_current :
    (t : Slot)
    → t.worker.state ≡ connected
    → length t.worker.mailbox.queue < t.worker.mailbox.capacity
    → (handle_ping_tick t.worker.heartbeat_epoch t).worker.mailbox.queue
      ≡ t.worker.mailbox.queue ++ (ping_command ∷ [])
unfolding handle_ping_tick
tick_current t on room = ground arith

-- A connected worker that loses its connection and is connected again.
reconnected_slot :
    (subs : List (String × MuxSubscription)) (i ctx : ℕ) (s : Slot)
    → s.worker.state ≡ connected
    → leb_ℤ s.worker.ping_interval (pos 0) ≡ false
    → s.worker.ping_cancel ≡ some ctx
    → let t = handle_worker_ready subs i (start_reconnect s) in
      (t.worker.heartbeat_epoch ≡ next_epoch s.worker.heartbeat_epoch)
      × (t.worker.state ≡ connected)
      × Elem ctx t.contexts.cancelled
unfolding handle_worker_ready start_reconnect launch_ticker
reconnected_slot subs i ctx s on beats held =
    rw (on, start_reconnect, handle_worker_ready, start_ping_ticker, beats)
      (
        refl,
        refl,
        inr (
            Elem-cancel s.worker.dial_cancel (cancel s.worker.ping_cancel s.contexts) ctx
              (inr (Elem-cancel s.worker.ping_cancel s.contexts ctx (inl held)))),
      )

-- A connected worker with a heartbeat interval loses its connection: a tick of the heartbeat that it had
-- is dropped whenever it arrives from then on, before the worker is connected again or after, whatever
-- has happened to the worker in fewer than 2^64 steps, since the worker is not connected or the number of
-- its heartbeat is another. The old heartbeat's context is cancelled; and once the worker is connected
-- again, a tick of the new heartbeat puts one ping at the end of the mailbox if that has room.
pub stale_tick_dropped :
    (hs : List Happening) (subs : List (String × MuxSubscription)) (i ctx : ℕ) (s : Slot)
    → s.worker.state ≡ connected
    → leb_ℤ s.worker.ping_interval (pos 0) ≡ false
    → s.worker.heartbeat_epoch < 2 ^ 64
    → s.worker.ping_cancel ≡ some ctx
    → length hs < 2 ^ 64
    → let u = happens i hs (start_reconnect s) in
      let t = handle_worker_ready subs i (start_reconnect s) in
      (handle_ping_tick s.worker.heartbeat_epoch u ≡ u)
      × (length t.worker.mailbox.queue < t.worker.mailbox.capacity
          → (handle_ping_tick t.worker.heartbeat_epoch t).worker.mailbox.queue
            ≡ t.worker.mailbox.queue ++ (ping_command ∷ []))
      × Elem ctx t.contexts.cancelled
stale_tick_dropped hs subs i ctx s on beats small held short =
    let (_, state, ended) = reconnected_slot subs i ctx s on beats held in
    let t = handle_worker_ready subs i (start_reconnect s) in
    let u = start_reconnect s in
    let (n, few, p) =
      happens-Passed hs i s.worker.heartbeat_epoch 0 u (lost-Passed s on beats small) in
    (
      Passed-drops s.worker.heartbeat_epoch n (happens i hs u) small (omega arith) p,
      (λ room. tick_current t state room),
      ended,
    )
