-- ===== src/Socket/Stranding.antt =====
-- internal/core/pkg/wsrefact_v5/client.go: what a client leaves behind when its run returns.
use custom_hts_legacy.Socket.Queries.{with_queries, ask-keeps, get_keys-keeps, give_up-keeps}
use custom_hts_legacy.Socket.Loop.{snapshot_keys}
use custom_hts_legacy.Prelude.{
  ℕ, ◌+◌, ◌≤◌, ◌<◌, ◌≡◌, refl, Bool, true, false, ◌&&◌, ◌||◌, not, Option, none, some, List, [],
  ◌∷◌, ◌++◌, arith, ltb, nat_eq, if◌then◌else◌, inl, inr, length, Bool-cases, if_true, if_false,
  ==-self,
}
use custom_hts_legacy.Socket.Intents
use custom_hts_legacy.Socket.State.{ConnEvent, Frame, ended, is_connected, Config, Loop, emit}
use custom_hts_legacy.Socket.Intents.{Err}
use custom_hts_legacy.Socket.Loop.{
  Event, dial_result, reconnect_tick, handler_failed, read_failed, worker_failed, writable,
  handle_send, handle_worker_failure, is_live,
}
use custom_hts_legacy.Socket.Phases.{bit}
use custom_hts_legacy.Socket.Counts.{count_replies}
use custom_hts_legacy.Socket.Client.{
  Client, new_client, event_of, push, publish_public, make_call, run, stop, finish, handle_next,
  see_stop, publish_internal, without_dial, without_timer, end_dial, end_timer, quit, Step, calls,
  runs, asks, gets, gives_up, stops, sees_stop, handles, works, pings, dials, ticks, quits,
  handler_fails, read_fails, write_fails, step, steps,
}
use custom_hts_legacy.Socket.Resolving.{
  count_events, count_events-append, steps_from-IsCounted, steps-IsCounted,
}

abbrev IsLeft : ℕ → Client → Type 0
IsLeft h c = (c.is_finished ≡ true) × (0 < count_events h c.event_ch)

module _ (config : Config) (h : ℕ) where
  push-IsLeft : (event : Event) (c : Client) → IsLeft h c → IsLeft h (push event c)
  push-IsLeft event c (f, there) = (f, omega (arith, there, count_events-append h c.event_ch event))

  push_if-IsLeft :
      (test : Bool) (event : Event) (c c' : Client)
      → IsLeft h c
      → IsLeft h c'
      → IsLeft h (if test then push event c' else c)
  push_if-IsLeft true event c c' p q = push-IsLeft event c' q
  push_if-IsLeft false event c c' p q = p

  called-IsLeft :
      (shut room : Bool) (event : Event) (c first second : Client)
      → IsLeft h c
      → IsLeft h first
      → IsLeft h second
      → IsLeft h (if shut then first else if room then push event c else second)
  called-IsLeft true room event c first second p q r = q
  called-IsLeft false true event c first second p q r = push-IsLeft event c p
  called-IsLeft false false event c first second p q r = r

  either-IsLeft :
      (test : Bool) (c c' : Client) → IsLeft h c → IsLeft h c' → IsLeft h (if test then c' else c)
  either-IsLeft true c c' p q = q
  either-IsLeft false c c' p q = p

  step-IsLeft : (s : Step) (c : Client) → IsLeft h c → IsLeft h (step config s c)
  unfolding step make_call publish_public publish_internal run stop quit end_dial end_timer see_stop
      handle_next finish
  step-IsLeft (calls call) c (f, there) =
      called-IsLeft (not c.is_started || c.loop.cancelled)
        (ltb (length c.event_ch) config.event_queue_size) (event_of call c.next_handle)
        (record c { next_handle = c.next_handle + 1 }) _ _ (f, there) (f, there) (f, there)
  step-IsLeft runs c (f, there) = elim (Bool-cases c.is_started) [
    | inl again ↦ if_true (IsLeft h) c.is_started _ _ again (f, there)
    | inr first ↦ if_false (IsLeft h) c.is_started _ _ first (f, there)
  ]
  step-IsLeft asks c p =
      ask-keeps (IsLeft h) c (λ n w r. p) config
        (λ n w r query. push-IsLeft (snapshot_keys query) (with_queries n w r c) p)
  step-IsLeft (gets query) c p = get_keys-keeps (IsLeft h) c (λ n w r. p) query
  step-IsLeft (gives_up query) c p = give_up-keeps (IsLeft h) c (λ n w r. p) query
  step-IsLeft stops c p = p
  step-IsLeft sees_stop c (f, there) =
      if_false (IsLeft h) (c.is_started && not c.is_finished && c.loop.cancelled) _ _
        (ground (arith, f)) (f, there)
  step-IsLeft (handles now) c (f, there) =
      if_false (IsLeft h) (c.is_started && not c.is_finished) _ _ (ground (arith, f)) (f, there)
  step-IsLeft (works id) c p = p
  step-IsLeft (pings id) c p = p
  step-IsLeft (dials attempt outcome) c p =
      push_if-IsLeft _ (dial_result attempt outcome) c (without_dial attempt c) p p
  step-IsLeft (ticks attempt) c p =
      push_if-IsLeft _ (reconnect_tick attempt) c (without_timer attempt c) p p
  step-IsLeft (quits attempt) c p = either-IsLeft c.loop.cancelled c _ p p
  step-IsLeft (handler_fails id e) c p = push_if-IsLeft _ (handler_failed id e) c c p p
  step-IsLeft (read_fails id e) c p = push_if-IsLeft _ (read_failed id e) c c p p
  step-IsLeft (write_fails id e) c p = push_if-IsLeft _ (worker_failed id e) c c p p

  steps-IsLeft : (ss : List Step) (c : Client) → IsLeft h c → IsLeft h (steps config ss c)
  unfolding steps
  steps-IsLeft [] c p = p
  steps-IsLeft (s ∷ ss) c p = steps-IsLeft ss (step config s c) (step-IsLeft s c p)

bit_at_most : (b : Bool) → bit b ≤ 1
bit_at_most true = omega arith
bit_at_most false = omega arith

-- A call of `Send`, `Subscribe` or `Unsubscribe` whose event is in the channel when `Run` has returned is never resolved, whatever happens later.
pub stranded :
    (config : Config) (before after : List Step) (h : ℕ)
    → (steps config before new_client).is_finished ≡ true
    → 0 < count_events h (steps config before new_client).event_ch
    → count_replies h (steps config after (steps config before new_client)).loop.results ≡ 0
stranded config before after h over there =
    let c = steps config before new_client in
    let later = steps config after c in
    let counted = steps_from-IsCounted config after c (steps-IsCounted config before) in
    let (f, still) = steps-IsLeft config h after c (over, there) in
    omega (arith, counted.total h, still, bit_at_most (ltb h later.next_handle))

live_test :
    (id : ℕ) (l : Loop)
    → l.live ≡ some id
    → l.routing_open ≡ true
    → (is_live id l && l.routing_open) ≡ true
live_test id l there routed = rw (there, routed, ==-self id) refl

not_routed : (up : Bool) (o : Option ℕ) → (if up && false then o else none) ≡ none
not_routed true o = refl
not_routed false o = refl

not_writable : (l : Loop) → l.routing_open ≡ false → writable l ≡ none
unfolding writable
not_writable l e = rw e (not_routed (is_connected l.state) l.live)

-- A write of the live transport's worker fails. The client still says that it is connected, but the next send is
-- refused, as in a backoff.
pub failed_write_blocks :
    (config : Config) (l : Loop) (id : ℕ) (e : Err) (frame : Frame) (h : ℕ)
    → l.live ≡ some id
    → is_connected l.state ≡ true
    → l.routing_open ≡ true
    → let l' = handle_worker_failure id e l in
      (is_connected l'.state ≡ true)
      × ((handle_send config frame h l').results
          ≡ l.results ++ ((h, ended (some Intents.backoff)) ∷ []))
unfolding handle_worker_failure handle_send writable
failed_write_blocks config l id e frame h there up routed =
    let closed : Loop = record (emit (ConnEvent.transport_write_failed e) l) {
      routing_open = false;
    } in
    if_true
      (λ (x : Loop).
        (is_connected x.state ≡ true)
        × ((handle_send config frame h x).results
            ≡ l.results ++ ((h, ended (some Intents.backoff)) ∷ [])))
      (is_live id l && l.routing_open) _ _ (live_test id l there routed)
      (up, rw (handle_send, not_writable closed refl) refl)
