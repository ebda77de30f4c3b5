-- ===== src/Mux/Types.antt =====
-- types.go and errors.go of internal/core/pkg/wsrefact_v6: the data of the multiplexer.
use custom_hts_legacy.Prelude.{
  ℕ, String, Bool, true, false, Option, none, some, List, [], ◌∷◌, ◌++◌, ltb, length, if◌then◌else◌,
  nat_eq,
}
use custom_hts_legacy.Prelude.Int.{ℤ}
use custom_hts_legacy.Prelude.Maps.{lookup, insert}

-- An `error`: the sentinels, the two wrappers, and any error of code that is not in the package.
pub data Err : Type 0 where
  url_required dialer_required workers_required invalid_queue_size invalid_write_timeout : Err
  mux_stopped not_connected reconnecting queue_full subscription_exists : Err
  subscription_not_found mux_capacity_reached placement_rejected : Err
  write_encoder_required : Err
  encode_write : Err → Err
  operation : String → Err → Err
  foreign : ℕ → Err

-- A result with an error: `(value, nil)` or `(_, err)`.
pub data Result (A : Type 0) : Type 0 where
  ok : A → Result A
  err : Err → Result A

infixl 5 ◌>>=◌ ◌>>◌
abbrev pub ◌>>=◌ : {A B : Type 0} → Result A → (A → Result B) → Result B
ok a >>= f = f a
err e >>= f = err e

abbrev pub ◌>>◌ : {B : Type 0} → Result (Unit {0}) → Result B → Result B
m >> k = m >>= λ _. k

-- `if … { return nil, e }`.
abbrev pub refuse_if : Bool → Err → Result (Unit {0})
refuse_if true e = err e
refuse_if false e = ok tt

-- `errors.As(err, &encodeErr)`: an `*EncodeWriteError` stands on the chain of `Unwrap`.
unfoldable pub as_encode_error : Err → Bool
as_encode_error (encode_write e) = true
as_encode_error (operation op e) = as_encode_error e
as_encode_error _ = false

pub data WriteIntentAction : Type 0 where
  subscribe unsubscribe ping : WriteIntentAction

pub record WriteIntent : Type 0 where
  pub key : String
  pub action : WriteIntentAction

pub record EncodedWrite : Type 0 where
  pub payload : List ℕ
  pub message_type : ℕ

-- `WriteEncoder.EncodeWrite`, code of the caller.
abbrev pub WriteEncoder : Type 0
WriteEncoder = WriteIntent → Result EncodedWrite

pub data UserCommandKind : Type 0 where
  subscribe unsubscribe : UserCommandKind

-- A `*Subscription` is the number of its handle.
pub record UserCommand : Type 0 where
  pub kind : UserCommandKind
  pub key : String
  pub subscription : ℕ

pub data IoCommandType : Type 0 where
  connect reconnect write replay_write ping : IoCommandType

-- A `DialCtx` is the number of the context.
pub record IoCommand : Type 0 where
  pub type : IoCommandType
  pub intent : Option WriteIntent
  pub subscription : Option ℕ
  pub dial_ctx : Option ℕ
  pub publish_write_failure : Bool

pub data IoWorkerEventKind : Type 0 where
  connected connect_failed reconnected write_failed disconnected ping_tick : IoWorkerEventKind

pub record IoWorkerEvent : Type 0 where
  pub kind : IoWorkerEventKind
  pub worker_index : ℕ
  pub intent : Option WriteIntent
  pub error : Option Err
  pub epoch : ℕ

pub data MuxWorkerState : Type 0 where
  connecting reconnecting connected stopped : MuxWorkerState

pub record MuxWorkerSnapshot : Type 0 where
  pub index : ℕ
  pub state : MuxWorkerState
  pub subscription_count : ℕ

-- The index that a policy returns is an `int`, so it can be negative.
abbrev pub PlacementPolicy : Type 0
PlacementPolicy = String → List MuxWorkerSnapshot → Result ℤ

pub data MuxRunState : Type 0 where
  ready running stopping stopped : MuxRunState

pub record MuxSubscription : Type 0 where
  pub worker_index : ℕ
  pub intent : WriteIntent

-- A worker's `chan ioCommand`: the commands sent and not yet taken by the worker, oldest first. The
-- command of a sender that waits for room stands at the end, past the capacity.
pub record Mailbox : Type 0 where
  pub capacity : ℕ
  pub queue : List IoCommand
  pub closed : Bool

-- `ch <- command`, which waits for room.
unfoldable pub send : IoCommand → Mailbox → Mailbox
send c b = record b { queue = b.queue ++ (c ∷ []) }

-- `select { case ch <- command: … default: … }`.
unfoldable pub try_send : IoCommand → Mailbox → Option Mailbox
unfolding send
try_send c b = if ltb (length b.queue) b.capacity then some (send c b) else none

-- A `context.CancelFunc` is the number of the context that it cancels.
pub record Worker : Type 0 where
  pub mailbox : Mailbox
  pub state : MuxWorkerState
  pub desired_keys : List String
  pub dial_cancel : Option ℕ
  pub ping_interval : ℤ
  pub ping_cancel : Option ℕ
  pub heartbeat_epoch : ℕ

-- A heartbeat goroutine: `runPingTicker(workerIndex, epoch, tickerCtx, …)`.
pub record Ticker : Type 0 where
  pub worker_index : ℕ
  pub epoch : ℕ
  pub ctx : ℕ

-- The contexts made so far, those cancelled, and the heartbeat goroutines started.
pub record Contexts : Type 0 where
  pub next : ℕ
  pub cancelled : List ℕ
  pub tickers : List Ticker

-- The fields of a worker's configuration that decide what the mux does. `int` and `time.Duration` can
-- be negative, and an interface or a pointer can be nil.
pub record MuxWorkerConfig : Type 0 where
  pub write_encoder : Option WriteEncoder
  pub has_dialer : Bool
  pub url : String
  pub queue_size : ℤ
  pub default_write_timeout : ℤ
  pub ping_interval : ℤ

pub record MuxConfig : Type 0 where
  pub workers : List MuxWorkerConfig
  pub queue_size : ℤ
  pub placement_policy : Option PlacementPolicy

pub record Mux : Type 0 where
  pub workers : List Worker
  pub subscriptions : List (String × MuxSubscription)
  pub placement_policy : PlacementPolicy
  pub shutdown_err : Option Err
  pub state : MuxRunState
  -- what was sent into `fatalCh`, which holds one event, and whether it is closed
  pub fatal_ch : List Err
  pub fatal_closed : Bool
  -- what the `done` channels of the subscriptions got
  pub results : List (ℕ × Option Err)
  pub contexts : Contexts

-- `(*Subscription).resolve`: the `sync.Once` lets the first result through.
unfoldable pub resolve : ℕ → Option Err → List (ℕ × Option Err) → List (ℕ × Option Err)
resolve sub e results = elim (lookup sub results) [ none ↦ insert sub e results | some _ ↦ results ]

unfoldable pub resolved : ℕ → Option Err → Mux → Mux
unfolding resolve
resolved sub e m = record m { results = resolve sub e m.results }

abbrev pub is_connected : MuxWorkerState → Bool
is_connected connected = true
is_connected _ = false

abbrev pub is_stopped : MuxWorkerState → Bool
is_stopped stopped = true
is_stopped _ = false

abbrev pub is_running : MuxRunState → Bool
is_running running = true
is_running _ = false
