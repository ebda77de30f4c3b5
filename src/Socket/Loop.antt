-- ===== src/Socket/Loop.antt =====
-- internal/core/pkg/wsrefact_v5/client.go: what the loop does with each event. `now` is the time of the step.
use custom_hts_legacy.Prelude.{
  ℕ, ◌+◌, String, Bool, true, false, ◌&&◌, ◌||◌, Option, none, some, List, [], ◌∷◌, ◌++◌, nat_beq,
  nat_eq, ◌==◌, if◌then◌else◌, ◌⊎◌, inl, inr,
}
use custom_hts_legacy.Prelude.Int.{ℤ}
use custom_hts_legacy.Prelude.Maps.{insert}
use custom_hts_legacy.Socket.Intents.{
  Err, queue_full, backoff, invalid_options, handler_continue, handler_backoff, PayloadGen, Intent,
  IntentStore, put, remove, snapshot,
}
use custom_hts_legacy.Socket.State.{
  ConnState, is_connected, ConnEvent, disconnected, transport_write_failed, handler_error,
  send_during_backoff, SubscribeOptions, Frame, resolve_message_type, new_transport, ended, Hook,
  returns, writes, Config, Loop, emit, resolve,
}
use custom_hts_legacy.Socket.Workers.{try_enqueue, send_sync, dispose_transport, wait}

-- `muxEvent`. A dial that succeeded has no error; a read reports what the handler or the read failed with.
pub data Event : Type 0 where
  send : Frame → ℕ → Event
  subscribe : String → SubscribeOptions → ℕ → Event
  unsubscribe : String → ℕ → Event
  snapshot_keys : (query : ℕ) → Event
  dial_result : (attempt : ℕ) → Option Err → Event
  reconnect_tick : (attempt : ℕ) → Event
  handler_failed read_failed worker_failed : ℕ → Err → Event

-- `canRouteWrites`, with the transport.
unfoldable pub writable : Loop → Option ℕ
writable l = if is_connected l.state && l.routing_open then l.live else none

abbrev pub offered : ℕ → Loop × Bool → Loop
offered handle (l, true) = l
offered handle (l, false) = resolve handle (ended (some queue_full)) l

abbrev pub in_backoff : Option String → ℕ → Loop → Loop
in_backoff key handle l = resolve handle (ended (some backoff)) (emit (send_during_backoff key) l)

unfoldable pub handle_send : Config → Frame → ℕ → Loop → Loop
unfolding writable try_enqueue
handle_send config frame handle l = elim (writable l) [
  | none ↦ in_backoff none handle l
  | some id ↦ offered handle (
      try_enqueue config id
        (record frame { message_type = resolve_message_type frame.message_type }) handle l)
]

abbrev pub write_generated : Config → ℕ → Err ⊎ ℕ → ℤ → ℤ → ℕ → Loop → Loop
write_generated config id (inl e) message_type write_timeout handle l =
    resolve handle (ended (some e)) l
write_generated config id (inr payload) message_type write_timeout handle l = offered handle (
    try_enqueue config id
      (record {
        payload = payload;
        message_type = resolve_message_type message_type;
        write_timeout = write_timeout;
      })
      handle l)

-- The live write of a subscribe or an unsubscribe.
unfoldable pub route_generated : Config → ℕ → PayloadGen → Intent → ℕ → Loop → Loop
unfolding writable try_enqueue
route_generated config now gen intent handle l = elim (writable l) [
  | none ↦ in_backoff (some intent.key) handle l
  | some id ↦ write_generated config id (gen now) intent.message_type intent.write_timeout handle l
]

abbrev pub subscribe_put : Config → ℕ → Intent → ℕ → Err ⊎ IntentStore → Loop → Loop
subscribe_put config now intent handle (inl e) l = resolve handle (ended (some e)) l
subscribe_put config now intent handle (inr store) l =
    route_generated config now intent.sub_gen intent handle (record l { store = store })

unfoldable pub subscribe_with :
    Config → ℕ → Option PayloadGen → Option PayloadGen → String → SubscribeOptions → ℕ → Loop → Loop
unfolding put route_generated
subscribe_with config now (some sub) (some unsub) key options handle l =
    let intent : Intent = record {
      key = key;
      sub_gen = sub;
      unsub_gen = unsub;
      message_type = options.message_type;
      write_timeout = options.write_timeout;
    } in
    subscribe_put config now intent handle (put intent l.store) l
subscribe_with config now none unsub key options handle l =
    resolve handle (ended (some invalid_options)) l
subscribe_with config now (some sub) none key options handle l =
    resolve handle (ended (some invalid_options)) l

unfoldable pub handle_subscribe : Config → ℕ → String → SubscribeOptions → ℕ → Loop → Loop
unfolding subscribe_with
handle_subscribe config now key options handle l =
    subscribe_with config now options.sub_gen options.unsub_gen key options handle l

abbrev pub unsubscribe_removed : Config → ℕ → ℕ → Err ⊎ (Intent × IntentStore) → Loop → Loop
unsubscribe_removed config now handle (inl e) l = resolve handle (ended (some e)) l
unsubscribe_removed config now handle (inr (intent, store)) l =
    route_generated config now intent.unsub_gen intent handle (record l { store = store })

unfoldable pub handle_unsubscribe : Config → ℕ → String → ℕ → Loop → Loop
unfolding remove route_generated
handle_unsubscribe config now key handle l =
    unsubscribe_removed config now handle (remove key l.store) l

abbrev pub next_reconnect_attempt : ℕ → ℕ
next_reconnect_attempt attempt = attempt + 1

unfoldable pub schedule_reconnect : ℕ → Loop → Loop
schedule_reconnect attempt l =
    if l.waiting_reconnect || l.cancelled
    then l
    else record (emit (ConnEvent.reconnecting attempt) l) {
      waiting_reconnect = true;
      timers = attempt ∷ l.timers;
    }

unfoldable pub start_dial : ℕ → Loop → Loop
start_dial attempt l =
    if l.dialing || l.cancelled then l else record l { dialing = true; dials = attempt ∷ l.dials }

abbrev pub release : Option ℕ → Loop → Loop
release none l = record l { routing_open = false; live = none }
release (some id) l = record (dispose_transport id l) {
  routing_open = false;
  live = none;
  retired = l.retired ++ (id ∷ []);
}

unfoldable pub release_live : Loop → Loop
unfolding dispose_transport
release_live l = release l.live l

abbrev pub with_state : ConnState → Loop → Loop
with_state state l = record l { state = state }

unfoldable pub enter_backoff : Err → ℕ → Loop → Loop
unfolding release_live schedule_reconnect
enter_backoff e attempt l =
    schedule_reconnect attempt
      (with_state ConnState.reconnecting (release_live (emit (disconnected e) l)))

abbrev pub replay_generated : Config → ℕ → Intent → Err ⊎ ℕ → Loop → Loop × Option Err
replay_generated config id intent (inl e) l = (l, some e)
replay_generated config id intent (inr payload) l =
    send_sync config id
      (record {
        payload = payload;
        message_type = resolve_message_type intent.message_type;
        write_timeout = intent.write_timeout;
      })
      l

abbrev pub then_go : Loop × Option Err → (Loop → Loop × Option Err) → Loop × Option Err
then_go (l, none) go = go l
then_go (l, some e) go = (l, some e)

-- The loop over the snapshot.
unfoldable pub replay : Config → ℕ → ℕ → List Intent → Loop → Loop × Option Err
unfolding send_sync
replay config now id [] l = (l, none)
replay config now id (intent ∷ rest) l =
    then_go (replay_generated config id intent (intent.sub_gen now) l)
      (λ l'. replay config now id rest l')

abbrev pub replayer_frame : Frame → Frame
replayer_frame frame = record frame { message_type = resolve_message_type frame.message_type }

-- `workerReplayer.Send`.
abbrev pub replayer_send : Config → ℕ → Frame → Loop → Loop × Option Err
replayer_send config id frame l = send_sync config id (replayer_frame frame) l

-- The hook runs to its end, each write before what follows it.
unfoldable pub run_hook : Config → ℕ → Hook → Loop → Loop × Option Err
unfolding send_sync
run_hook config id (returns e) l = (l, e)
run_hook config id (writes frame next) l =
    let sent = replayer_send config id frame l in run_hook config id (next sent.1) sent.0

abbrev pub on_ready_hook : Config → Option (ℕ → ℕ → Hook) → ℕ → ℕ → Loop → Loop × Option Err
on_ready_hook config none id attempt l = (l, none)
on_ready_hook config (some on_ready) id attempt l = run_hook config id (on_ready id attempt) l

unfoldable pub activate : Config → ℕ → ℕ → ℕ → Loop → Loop × Option Err
unfolding replay snapshot run_hook
activate config now id attempt l =
    then_go (replay config now id (snapshot l.store) l)
      (on_ready_hook config config.on_ready id attempt)

abbrev pub activated : ℕ → Loop × Option Err → Loop
activated attempt (l, some e) = enter_backoff e (next_reconnect_attempt attempt) l
activated attempt (l, none) =
    record (emit (if nat_beq l.ready_count 0 then ConnEvent.connected else ConnEvent.reconnected)
      l) { state = ConnState.connected; routing_open = true; ready_count = l.ready_count + 1 }

-- The transport of a new connection.
abbrev pub with_transport : Loop → Loop
with_transport l = record l {
  transports = insert l.next_transport new_transport l.transports;
  next_transport = l.next_transport + 1;
  live = some l.next_transport;
  routing_open = false;
}

abbrev pub dialed : Config → ℕ → ℕ → Option Err → Loop → Loop
dialed config now attempt (some e) l = schedule_reconnect (next_reconnect_attempt attempt) l
dialed config now attempt none l =
    activated attempt (activate config now l.next_transport attempt (with_transport l))

unfoldable pub handle_dial_result : Config → ℕ → ℕ → Option Err → Loop → Loop
unfolding schedule_reconnect activate enter_backoff
handle_dial_result config now attempt outcome l =
    if l.cancelled
    then record l { dialing = false }
    else dialed config now attempt outcome (record l { dialing = false })

unfoldable pub on_handler_error : Err → Loop → Loop × Option Err
unfolding enter_backoff
on_handler_error handler_continue l = (emit (handler_error handler_continue) l, none)
on_handler_error handler_backoff l =
    (enter_backoff handler_backoff 1 (emit (handler_error handler_backoff) l), none)
on_handler_error e l = (emit (handler_error e) l, some e)

abbrev pub is_live : ℕ → Loop → Bool
is_live id l = elim l.live [ none ↦ false | some live ↦ id == live ]

-- `handleSessionRead`, for a handler that failed and for a read that failed.
unfoldable pub handle_handler_error : ℕ → Err → Loop → Loop × Option Err
unfolding on_handler_error
handle_handler_error id e l = if is_live id l then on_handler_error e l else (l, none)

unfoldable pub handle_read_error : ℕ → Err → Loop → Loop
unfolding enter_backoff
handle_read_error id e l = if is_live id l then enter_backoff e 1 l else l

unfoldable pub handle_worker_failure : ℕ → Err → Loop → Loop
handle_worker_failure id e l =
    if is_live id l && l.routing_open
    then record (emit (transport_write_failed e) l) { routing_open = false }
    else l

unfoldable pub handle_tick : ℕ → Loop → Loop
unfolding start_dial
handle_tick attempt l = start_dial attempt (record l { waiting_reconnect = false })

unfoldable pub handle_event : Config → ℕ → Event → Loop → Loop × Option Err
unfolding handle_send handle_subscribe handle_unsubscribe handle_dial_result handle_tick
    handle_handler_error handle_read_error handle_worker_failure
handle_event config now (send frame handle) l = (handle_send config frame handle l, none)
handle_event config now (subscribe key options handle) l =
    (handle_subscribe config now key options handle l, none)
handle_event config now (unsubscribe key handle) l =
    (handle_unsubscribe config now key handle l, none)
handle_event config now (snapshot_keys query) l =
    (record l { responses = l.responses ++ ((query, l.store.order) ∷ []) }, none)
handle_event config now (dial_result attempt outcome) l =
    (handle_dial_result config now attempt outcome l, none)
handle_event config now (reconnect_tick attempt) l = (handle_tick attempt l, none)
handle_event config now (handler_failed id e) l = handle_handler_error id e l
handle_event config now (read_failed id e) l = (handle_read_error id e l, none)
handle_event config now (worker_failed id e) l = (handle_worker_failure id e l, none)

unfoldable pub wait_all : Config → List ℕ → Loop → Loop
unfolding wait
wait_all config [] l = l
wait_all config (id ∷ ids) l = wait_all config ids (wait config id l)

abbrev pub live_ids : Option ℕ → List ℕ
live_ids none = []
live_ids (some id) = id ∷ []

abbrev pub dispose_live : Option ℕ → Loop → Loop
dispose_live none l = l
dispose_live (some id) l = dispose_transport id l

unfoldable pub shutdown : Config → Option Err → Loop → Loop
unfolding dispose_transport wait_all
shutdown config run_err l =
    let detached = record l { cancelled = true; routing_open = false; live = none } in
    let quiet = wait_all config (l.retired ++ live_ids l.live) (dispose_live l.live detached) in
    emit (ConnEvent.stopped run_err) (with_state ConnState.stopped quiet)
