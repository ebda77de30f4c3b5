-- ===== src/Socket/Replies.antt =====
-- internal/core/pkg/wsrefact_v5: every handler of the loop puts the subscription of its call into one place.
use custom_hts_legacy.Socket.Workers.{ping_times, tick_first, write_sync}
use custom_hts_legacy.Prelude.{zero, suc}
use custom_hts_legacy.Prelude.{
  ℕ, ◌≡◌, refl, ap, subst, String, Option, none, some, List, [], ◌∷◌, arith, ltb, ◌==◌, nat_eq, ◌⊎◌,
  inl, inr, length, Bool-cases, Option-cases, if_true, if_false,
}
use custom_hts_legacy.Prelude.Int.{ℤ}
use custom_hts_legacy.Prelude.Maps.{lookup}
use custom_hts_legacy.Socket.Intents.{Err, PayloadGen, Intent, IntentStore, put}
use custom_hts_legacy.Socket.State.{
  ConnEvent, SubscribeOptions, Frame, WorkerEvent, write, dispose, Transport, ended, Config, Loop,
  emit, put_transport,
}
use custom_hts_legacy.Socket.Workers.{
  try_enqueue, worker_step, handle_queue, handle_ping, send_sync, dispose_transport, write_one,
  with_write,
}
use custom_hts_legacy.Socket.Loop.{
  in_backoff, writable, offered, handle_send, write_generated, route_generated, subscribe_put,
  subscribe_with, unsubscribe_removed,
}
use custom_hts_legacy.Socket.Phases.{bit}
use custom_hts_legacy.Socket.Counts.{
  count_queue, count_queue-append, IsKept, same-IsKept, zero_trans, resolve-IsKept, put-IsKept,
  replaced, present,
}

module _ (config : Config) (h : ℕ) where
  offered-IsKept :
      (id : ℕ) (frame : Frame) (i : ℕ) (l : Loop)
      → IsKept h (bit (i == h)) l (offered i (try_enqueue config id frame i l))
  unfolding try_enqueue
  offered-IsKept id frame i l = elim (Option-cases (lookup id l.transports)) [
    | inl gone ↦ rw (try_enqueue, gone) (resolve-IsKept h i _ l)
    | inr (t, found) ↦ elim (Bool-cases (ltb (length t.queue) config.write_queue_size)) [
      | inl room ↦
          rw (try_enqueue, found, room)
            (put-IsKept h id l t _ found (bit (i == h))
              (count_queue-append h t.queue (write frame i)))
      | inr packed ↦ rw (try_enqueue, found, packed) (resolve-IsKept h i _ l)
    ]
  ]

  pub emit-IsKept : (event : ConnEvent) (l : Loop) → IsKept h 0 l (emit event l)
  emit-IsKept event l = same-IsKept h l (emit event l) refl refl refl

  backoff-IsKept :
      (key : Option String) (i : ℕ) (l : Loop) → IsKept h (bit (i == h)) l (in_backoff key i l)
  backoff-IsKept key i l =
      zero_trans (emit-IsKept (ConnEvent.send_during_backoff key) l)
        (resolve-IsKept h i _ (emit (ConnEvent.send_during_backoff key) l))

  pub send-IsKept :
      (frame : Frame) (i : ℕ) (l : Loop) → IsKept h (bit (i == h)) l (handle_send config frame i l)
  unfolding handle_send
  send-IsKept frame i l = elim (Option-cases (writable l)) [
    | inl closed ↦ rw (handle_send, closed) (backoff-IsKept none i l)
    | inr (id, there) ↦ rw (handle_send, there) (offered-IsKept id _ i l)
  ]

  written-IsKept :
      (id : ℕ) (r : Err ⊎ ℕ) (message_type write_timeout : ℤ) (i : ℕ) (l : Loop)
      → IsKept h (bit (i == h)) l (write_generated config id r message_type write_timeout i l)
  written-IsKept id (inl e) message_type write_timeout i l = resolve-IsKept h i _ l
  written-IsKept id (inr payload) message_type write_timeout i l = offered-IsKept id _ i l

  routed-IsKept :
      (now : ℕ) (gen : PayloadGen) (intent : Intent) (i : ℕ) (l : Loop)
      → IsKept h (bit (i == h)) l (route_generated config now gen intent i l)
  unfolding route_generated
  routed-IsKept now gen intent i l = elim (Option-cases (writable l)) [
    | inl closed ↦ rw (route_generated, closed) (backoff-IsKept (some intent.key) i l)
    | inr (id, there) ↦
        rw (route_generated, there)
          (written-IsKept id (gen now) intent.message_type intent.write_timeout i l)
  ]

  stored-IsKept : (store : IntentStore) (l : Loop) → IsKept h 0 l (record l { store = store })
  stored-IsKept store l = same-IsKept h l (record l { store = store }) refl refl refl

  put_store-IsKept :
      (now : ℕ) (intent : Intent) (i : ℕ) (r : Err ⊎ IntentStore) (l : Loop)
      → IsKept h (bit (i == h)) l (subscribe_put config now intent i r l)
  put_store-IsKept now intent i (inl e) l = resolve-IsKept h i _ l
  put_store-IsKept now intent i (inr store) l =
      zero_trans (stored-IsKept store l)
        (routed-IsKept now intent.sub_gen intent i (record l { store = store }))

  pub with-IsKept :
      (now : ℕ) (sub unsub : Option PayloadGen) (key : String) (options : SubscribeOptions) (i : ℕ)
      (l : Loop)
      → IsKept h (bit (i == h)) l (subscribe_with config now sub unsub key options i l)
  unfolding subscribe_with
  with-IsKept now none unsub key options i l = resolve-IsKept h i _ l
  with-IsKept now (some sub) none key options i l = resolve-IsKept h i _ l
  with-IsKept now (some sub) (some unsub) key options i l =
      let intent : Intent = record {
        key = key;
        sub_gen = sub;
        unsub_gen = unsub;
        message_type = options.message_type;
        write_timeout = options.write_timeout;
      } in
      put_store-IsKept now intent i (put intent l.store) l

  pub removed-IsKept :
      (now i : ℕ) (r : Err ⊎ (Intent × IntentStore)) (l : Loop)
      → IsKept h (bit (i == h)) l (unsubscribe_removed config now i r l)
  removed-IsKept now i (inl e) l = resolve-IsKept h i _ l
  removed-IsKept now i (inr (intent, store)) l =
      zero_trans (stored-IsKept store l)
        (routed-IsKept now intent.unsub_gen intent i (record l { store = store }))

  moved : {m n : ℕ} {l l' : Loop} → m ≡ n → IsKept h m l l' → IsKept h n l l'
  moved {l = l} {l' = l'} e k = subst (λ n. IsKept h n l l') e k

  queue-IsKept :
      (id : ℕ) (t : Transport) (q : List WorkerEvent) (l : Loop)
      → lookup id l.transports ≡ some t
      → t.queue ≡ q
      → IsKept h 0 l (handle_queue config id t q l)
  queue-IsKept id t [] l found e = same-IsKept h l l refl refl refl
  queue-IsKept id t (dispose ∷ q) l found e =
      put-IsKept h id l t _ found 0 (omega (arith, ap (count_queue h) e))
  queue-IsKept id t (write frame i ∷ q) l found e =
      let sent = write_one config frame in
      let reply = config.network id t.written sent in
      let t' = with_write sent reply (record t { queue = q }) in
      let out = resolve-IsKept h i (ended reply) (put_transport id t' l) in
      let placed = replaced h id l t t' found in
      record {
        counted = omega (arith, out.counted, placed, ap (count_queue h) e);
        next = refl;
        same = present h id l t t' found;
      }

  pub worker-IsKept : (id : ℕ) (l : Loop) → IsKept h 0 l (worker_step config id l)
  unfolding worker_step
  worker-IsKept id l = elim (Option-cases (lookup id l.transports)) [
    | inl gone ↦ rw (worker_step, gone) (same-IsKept h l l refl refl refl)
    | inr (t, found) ↦
        rw (worker_step, found)
          (elim (Bool-cases t.is_done) [
            | inl over ↦
                if_true (IsKept h 0 l) t.is_done _ _ over (same-IsKept h l l refl refl refl)
            | inr working ↦
                if_false (IsKept h 0 l) t.is_done _ _ working
                  (queue-IsKept id t t.queue l found refl)
          ])
  ]

  pub ping-IsKept : (id : ℕ) (l : Loop) → IsKept h 0 l (handle_ping config id l)
  unfolding handle_ping
  ping-IsKept id l = elim (Option-cases (lookup id l.transports)) [
    | inl gone ↦ rw (handle_ping, gone) (same-IsKept h l l refl refl refl)
    | inr (t, found) ↦
        rw (handle_ping, found)
          (elim (Bool-cases t.is_done) [
            | inl over ↦
                if_true (IsKept h 0 l) t.is_done _ _ over (same-IsKept h l l refl refl refl)
            | inr working ↦
                if_false (IsKept h 0 l) t.is_done _ _ working
                  (put-IsKept h id l t _ found 0 (omega arith))
          ])
  ]

  pub dispose-IsKept : (id : ℕ) (l : Loop) → IsKept h 0 l (dispose_transport id l)
  unfolding dispose_transport
  dispose-IsKept id l = elim (Option-cases (lookup id l.transports)) [
    | inl gone ↦ rw (dispose_transport, gone) (same-IsKept h l l refl refl refl)
    | inr (t, found) ↦
        rw (dispose_transport, found)
          (put-IsKept h id l t _ found 0 (count_queue-append h t.queue dispose))
  ]

  pings-IsKept : (id n : ℕ) (l : Loop) → IsKept h 0 l (ping_times config id n l)
  unfolding ping_times
  pings-IsKept id zero l = same-IsKept h l l refl refl refl
  pings-IsKept id (suc n) l =
      zero_trans (ping-IsKept id l) (pings-IsKept id n (handle_ping config id l))

  ticked-IsKept : (id : ℕ) (l : Loop) → IsKept h 0 l (tick_first config id l)
  unfolding tick_first
  ticked-IsKept id l = elim (Option-cases (lookup id l.transports)) [
    | inl gone ↦ rw (tick_first, gone) (same-IsKept h l l refl refl refl)
    | inr (t, found) ↦ rw (tick_first, found) (pings-IsKept id (config.ticks_before id t.written) l)
  ]

  put_sync-IsKept :
      (id : ℕ) (frame : Frame) (l : Loop) → IsKept h 0 l (write_sync config id frame l).0
  unfolding write_sync
  put_sync-IsKept id frame l = elim (Option-cases (lookup id l.transports)) [
    | inl gone ↦ rw (write_sync, gone) (same-IsKept h l l refl refl refl)
    | inr (t, found) ↦ rw (write_sync, found) (put-IsKept h id l t _ found 0 (omega arith))
  ]

  pub sync-IsKept :
      (id : ℕ) (frame : Frame) (l : Loop) → IsKept h 0 l (send_sync config id frame l).0
  unfolding send_sync
  sync-IsKept id frame l =
      zero_trans (ticked-IsKept id l) (put_sync-IsKept id frame (tick_first config id l))
