-- ===== src/Socket/Workers.antt =====
-- internal/core/pkg/wsrefact_v5/ioworker.go, session.go and transport.go: the worker that writes the frames of
-- one connection. The loop's `Dispose` blocks while the queue is full, which is modelled as a queue with one more
-- place. A failed write also arrives at the loop as an event, when the event channel has room.
use custom_hts_legacy.Prelude.{
  ℕ, zero, suc, Bool, true, false, Option, none, some, List, [], ◌∷◌, ◌++◌, ltb, nat_eq,
  if◌then◌else◌, length,
}
use custom_hts_legacy.Prelude.Int.{pos, leb_ℤ}
use custom_hts_legacy.Prelude.Maps.{lookup}
use custom_hts_legacy.Socket.Intents.{Err, foreign}
use custom_hts_legacy.Socket.State.{
  Frame, ping_message, resolve_message_type, WorkerEvent, write, dispose, Transport, ended, Config,
  Loop, resolve, put_transport,
}

unfoldable pub try_enqueue : Config → ℕ → Frame → ℕ → Loop → Loop × Bool
try_enqueue config id frame handle l = elim (lookup id l.transports) [
  | none ↦ (l, false)
  | some t ↦
      if ltb (length t.queue) config.write_queue_size
      then (put_transport id (record t { queue = t.queue ++ (write frame handle ∷ []) }) l, true)
      else (l, false)
]

-- The frame as `writeOne` writes it.
abbrev pub write_one : Config → Frame → Frame
write_one config frame = record frame {
  message_type = resolve_message_type frame.message_type;
  write_timeout =
      if leb_ℤ frame.write_timeout (pos 0) then config.write_timeout else frame.write_timeout;
}

abbrev pub with_write : Frame → Option Err → Transport → Transport
with_write frame reply t = record t { written = t.written ++ ((frame, reply) ∷ []) }

abbrev pub handle_request : Config → ℕ → Transport → List WorkerEvent → Frame → ℕ → Loop → Loop
handle_request config id t queue frame handle l =
    let sent = write_one config frame in
    let reply = config.network id t.written sent in
    resolve handle (ended reply)
      (put_transport id (with_write sent reply (record t { queue = queue })) l)

abbrev pub handle_queue : Config → ℕ → Transport → List WorkerEvent → Loop → Loop
handle_queue config id t [] l = l
handle_queue config id t (dispose ∷ queue) l =
    put_transport id (record t { queue = queue; is_done = true }) l
handle_queue config id t (write frame handle ∷ queue) l =
    handle_request config id t queue frame handle l

-- The worker takes the next event of its queue.
unfoldable pub worker_step : Config → ℕ → Loop → Loop
worker_step config id l = elim (lookup id l.transports) [
  | none ↦ l
  | some t ↦ if t.is_done then l else handle_queue config id t t.queue l
]

unfoldable pub handle_ping : Config → ℕ → Loop → Loop
handle_ping config id l = elim (lookup id l.transports) [
  | none ↦ l
  | some t ↦
      if t.is_done
      then l
      else let sent =
          write_one config
            (record { payload = 0; message_type = ping_message; write_timeout = pos 0 }) in
        put_transport id (with_write sent (config.network id t.written sent) t) l
]

unfoldable pub ping_times : Config → ℕ → ℕ → Loop → Loop
unfolding handle_ping
ping_times config id zero l = l
ping_times config id (suc n) l = ping_times config id n (handle_ping config id l)

-- The ticks that the worker takes before a write.
unfoldable pub tick_first : Config → ℕ → Loop → Loop
unfolding ping_times
tick_first config id l = elim (lookup id l.transports) [
  | none ↦ l
  | some t ↦ ping_times config id (config.ticks_before id t.written) l
]

-- The worker takes the write of `SendSync`.
unfoldable pub write_sync : Config → ℕ → Frame → Loop → Loop × Option Err
write_sync config id frame l = elim (lookup id l.transports) [
  | none ↦ (l, some (foreign 0))
  | some t ↦
      let sent = write_one config frame in
      let reply = config.network id t.written sent in
      (put_transport id (with_write sent reply t) l, reply)
]

-- A write of the loop itself, on a transport that has an empty queue, since nothing is routed to it yet; the
-- worker may take ticks before it.
unfoldable pub send_sync : Config → ℕ → Frame → Loop → Loop × Option Err
unfolding tick_first write_sync
send_sync config id frame l = write_sync config id frame (tick_first config id l)

unfoldable pub dispose_transport : ℕ → Loop → Loop
dispose_transport id l = elim (lookup id l.transports) [
  | none ↦ l
  | some t ↦ put_transport id (record t { queue = t.queue ++ (dispose ∷ []); is_closed = true }) l
]

-- The worker goes on for a number of events.
unfoldable pub work : Config → ℕ → ℕ → Loop → Loop
unfolding worker_step
work config id zero l = l
work config id (suc n) l = work config id n (worker_step config id l)

abbrev pub queue_length : Option Transport → ℕ
queue_length none = 0
queue_length (some t) = length t.queue

-- `Wait` for a transport that was disposed: its worker takes what its queue holds.
unfoldable pub wait : Config → ℕ → Loop → Loop
unfolding work
wait config id l = work config id (queue_length (lookup id l.transports)) l
