-- ===== src/Socket/State.antt =====
-- internal/core/pkg/wsrefact_v5: the types of types.go, and the state of the single-threaded loop of client.go
-- with what it shares with the client. A transport is a number, and its session has the same number; a `*Subscription`
-- is the number of the call that it was made for. Attempts and counts do not reach the bound of `int`.
use custom_hts_legacy.Prelude.{
  ℕ, String, Bool, true, false, Option, none, List, [], ◌∷◌, ◌++◌, nat_eq, if◌then◌else◌,
}
use custom_hts_legacy.Prelude.Int.{ℤ, pos, leb_ℤ}
use custom_hts_legacy.Prelude.Maps.{insert}
use custom_hts_legacy.Socket.Intents.{Err, PayloadGen, IntentStore, new_intent_store}

pub data ConnState : Type 0 where
  stopped reconnecting connected : ConnState

abbrev pub is_connected : ConnState → Bool
is_connected connected = true
is_connected reconnecting = false
is_connected stopped = false

-- ConnEvent, with the fields that each type has.
pub data ConnEvent : Type 0 where
  connected reconnected : ConnEvent
  disconnected transport_write_failed handler_error : Err → ConnEvent
  reconnecting : (attempt : ℕ) → ConnEvent
  send_during_backoff : (key : Option String) → ConnEvent
  stopped : Option Err → ConnEvent

pub record SubscribeOptions : Type 0 where
  pub sub_gen : Option PayloadGen
  pub unsub_gen : Option PayloadGen
  pub message_type : ℤ
  pub write_timeout : ℤ

-- A frame with its write overrides.
pub record Frame : Type 0 where
  pub payload : ℕ
  pub message_type : ℤ
  pub write_timeout : ℤ

abbrev pub text_message : ℤ
text_message = pos 1

abbrev pub ping_message : ℤ
ping_message = pos 9

abbrev pub resolve_message_type : ℤ → ℤ
resolve_message_type message_type =
    if leb_ℤ message_type (pos 0) then text_message else message_type

-- An `ioWorkerEvent`; a write has the subscription that it resolves.
pub data WorkerEvent : Type 0 where
  write : Frame → ℕ → WorkerEvent
  dispose : WorkerEvent

-- One connection generation: the queue of its worker, the frames that were written with what became of them,
-- whether the connection was closed, and whether the worker has exited.
pub record Transport : Type 0 where
  pub queue : List WorkerEvent
  pub written : List (Frame × Option Err)
  pub is_closed : Bool
  pub is_done : Bool

abbrev pub new_transport : Transport
new_transport = record { queue = []; written = []; is_closed = false; is_done = false }

-- What the subscription of a call ends with.
pub data Reply : Type 0 where
  ended : Option Err → Reply

-- The hook `OnReady`: what it returns, or the frame that it writes through its replayer, after the message type
-- and the timeout of its options, and how it goes on after the outcome of the write.
pub data Hook : Type 0 where
  returns : Option Err → Hook
  writes : Frame → (Option Err → Hook) → Hook

-- The configuration, and what the other side does: what becomes of a write on a transport, after the writes
-- before it; the hook `OnReady` for a transport and an attempt; and how many ticks of the heartbeat a worker takes
-- before it takes a write of the loop, after the writes before it.
pub record Config : Type 0 where
  pub event_queue_size : ℕ
  pub write_queue_size : ℕ
  pub write_timeout : ℤ
  pub network : ℕ → List (Frame × Option Err) → Frame → Option Err
  pub on_ready : Option (ℕ → ℕ → Hook)
  pub ticks_before : ℕ → List (Frame × Option Err) → ℕ

-- `clientLoop`, with the state, the context, the emitted events and the resolved calls of the client. `dials` and
-- `timers` are the attempts of the goroutines that dial and that wait for a backoff, and `responses` what was sent
-- into the response channels of `Subscriptions` calls.
pub record Loop : Type 0 where
  pub state : ConnState
  pub cancelled : Bool
  pub store : IntentStore
  pub transports : List (ℕ × Transport)
  pub next_transport : ℕ
  pub live : Option ℕ
  pub retired : List ℕ
  pub routing_open : Bool
  pub dialing : Bool
  pub waiting_reconnect : Bool
  pub ready_count : ℕ
  pub dials : List ℕ
  pub timers : List ℕ
  pub events : List ConnEvent
  pub results : List (ℕ × Reply)
  pub responses : List (ℕ × List String)

unfoldable pub new_loop : Loop
new_loop = record {
  state = stopped;
  cancelled = false;
  store = new_intent_store;
  transports = [];
  next_transport = 0;
  live = none;
  retired = [];
  routing_open = false;
  dialing = false;
  waiting_reconnect = false;
  ready_count = 0;
  dials = [];
  timers = [];
  events = [];
  results = [];
  responses = [];
}

abbrev pub emit : ConnEvent → Loop → Loop
emit event l = record l { events = l.events ++ (event ∷ []) }

abbrev pub resolve : ℕ → Reply → Loop → Loop
resolve handle reply l = record l { results = l.results ++ ((handle, reply) ∷ []) }

abbrev pub put_transport : ℕ → Transport → Loop → Loop
put_transport id t l = record l { transports = insert id t l.transports }
