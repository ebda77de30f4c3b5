-- ===== src/Mux/IoWorker.antt =====
-- internal/core/pkg/wsrefact_v6/ioworker.go: the command loop of one websocket worker. Dialing, the encoder
-- and the connection are other code: their answers are functions of the worker as it stands, or come with the
-- command. A connection and its context are told apart by a number.
use custom_hts_legacy.Prelude.{
  ℕ, suc, Bool, true, false, Option, none, some, List, [], ◌∷◌, ◌++◌, if◌then◌else◌, nat_beq,
}
use custom_hts_legacy.Mux.Types.{
  Err, not_connected, encode_write, operation, Result, ok, err, WriteIntent, EncodedWrite,
  IoCommandType, IoCommand, IoWorkerEvent, IoWorkerEventKind, resolve,
}

pub record IoWorker : Type 0 where
  pub worker_index : ℕ
  pub conn : Option ℕ
  pub conn_cancel : Option ℕ
  pub next_conn : ℕ
  pub closed : List ℕ
  pub cancelled : List ℕ
  pub events : List IoWorkerEvent
  pub results : List (ℕ × Option Err)

-- What the network does at one attempt of a reconnect program.
pub data Attempt : Type 0 where
  cancelled_waiting cancelled_dialing failed dialed dialed_cancelled : Attempt

-- The encoder, the first dial, and the two calls on the connection that a write makes.
pub record Network : Type 0 where
  pub encode : WriteIntent → Result EncodedWrite
  pub dial : IoWorker → Option Err
  pub attempts : IoWorker → List Attempt
  pub set_deadline : IoWorker → Option Err
  pub write_message : IoWorker → EncodedWrite → Option Err

abbrev pub event_of : IoWorker → IoWorkerEventKind → Option WriteIntent → Option Err → IoWorkerEvent
event_of w kind intent error = record {
  kind = kind;
  worker_index = w.worker_index;
  intent = intent;
  error = error;
  epoch = 0;
}

unfoldable pub publish_event : IoWorkerEvent → IoWorker → IoWorker
publish_event event w = record w { events = w.events ++ (event ∷ []) }

unfoldable pub report_write_failure : IoCommand → Err → IoWorker → IoWorker
unfolding publish_event
report_write_failure command error w =
    if command.publish_write_failure
    then publish_event (event_of w IoWorkerEventKind.write_failed command.intent (some error)) w
    else w

abbrev consed : Option ℕ → List ℕ → List ℕ
consed none l = l
consed (some x) l = x ∷ l

unfoldable pub close_conn : IoWorker → IoWorker
close_conn w = record w { closed = consed w.conn w.closed }

unfoldable pub drop_conn : IoWorker → IoWorker
drop_conn w = record w {
  cancelled = consed w.conn_cancel w.cancelled;
  conn_cancel = none;
  closed = consed w.conn w.closed;
  conn = none;
}

-- A dialed connection, of which the read loop runs under a new context.
unfoldable pub take_conn : IoWorkerEventKind → IoWorker → IoWorker
unfolding publish_event
take_conn kind w = record (publish_event (event_of w kind none none) w) {
  conn = some w.next_conn;
  conn_cancel = some w.next_conn;
  next_conn = suc w.next_conn;
}

abbrev connect_result : Option Err → IoWorker → IoWorker
connect_result none w = take_conn IoWorkerEventKind.connected w
connect_result (some e) w =
    publish_event (event_of w IoWorkerEventKind.connect_failed none (some e)) w

unfoldable pub handle_connect : Network → IoCommand → IoWorker → Option IoWorker
unfolding drop_conn take_conn publish_event
handle_connect net command w = elim command.dial_ctx [
  | none ↦ none
  | some _ ↦ let dropped = drop_conn w in some (connect_result (net.dial dropped) dropped)
]

-- The reconnect program: whether it dialed a connection, and whether its context was cancelled by then. A
-- list that ends stands for a program that is still retrying, which the loop waits for.
unfoldable pub run_reconnect : List Attempt → Option (Bool × Bool)
run_reconnect [] = none
run_reconnect (cancelled_waiting ∷ attempts) = some (false, true)
run_reconnect (cancelled_dialing ∷ attempts) = some (false, true)
run_reconnect (failed ∷ attempts) = run_reconnect attempts
run_reconnect (dialed ∷ attempts) = some (true, false)
run_reconnect (dialed_cancelled ∷ attempts) = some (true, true)

-- With a cancelled context the worker returns, also when a connection was dialed.
abbrev pub reconnect_result : Option (Bool × Bool) → IoWorker → IoWorker
reconnect_result none w = w
reconnect_result (some (false, over)) w = w
reconnect_result (some (true, true)) w = record w { next_conn = suc w.next_conn }
reconnect_result (some (true, false)) w = take_conn IoWorkerEventKind.reconnected w

unfoldable pub handle_reconnect : Network → IoCommand → IoWorker → Option IoWorker
unfolding drop_conn run_reconnect take_conn
handle_reconnect net command w = elim command.dial_ctx [
  | none ↦ none
  | some _ ↦
      let dropped = drop_conn w in
      some (reconnect_result (run_reconnect (net.attempts dropped)) dropped)
]

-- An encoded write without a message type is a panic.
unfoldable pub encode_write_of : Network → WriteIntent → Option (Result EncodedWrite)
encode_write_of net intent = elim (net.encode intent) [
  | err e ↦ some (err (encode_write e))
  | ok encoded ↦ if nat_beq encoded.message_type 0 then none else some (ok encoded)
]

-- `writeOne`, with a positive write timeout.
unfoldable pub write_one : Network → EncodedWrite → IoWorker → Option Err
write_one net encoded w = elim (net.set_deadline w) [
  | some e ↦ some (operation "set write deadline" e)
  | none ↦ elim (net.write_message w encoded) [
    | some e ↦ some (operation "write message" e)
    | none ↦ none
  ]
]

abbrev pub close_on_error : Option Err → IoWorker → IoWorker
close_on_error none w = w
close_on_error (some e) w = close_conn w

abbrev pub resolved_to : Option ℕ → Option Err → IoWorker → IoWorker
resolved_to none error w = w
resolved_to (some sub) error w = record w { results = resolve sub error w.results }

-- A write on a live connection; the caller is told of the outcome if it waits for one.
unfoldable pub write_encoded : Network → IoCommand → Result EncodedWrite → IoWorker → IoWorker
unfolding write_one close_conn report_write_failure resolve
write_encoded net command (err e) w =
    report_write_failure command e (resolved_to command.subscription (some e) w)
write_encoded net command (ok encoded) w =
    let outcome = write_one net encoded w in
    close_on_error outcome (resolved_to command.subscription outcome w)

abbrev pub write_if_encoded :
    Network → IoCommand → Option (Result EncodedWrite) → IoWorker → Option IoWorker
write_if_encoded net command none w = none
write_if_encoded net command (some r) w = some (write_encoded net command r w)

-- What `handleWrite` and `handleReplayWrite` have in common: a replay has no subscription to resolve.
unfoldable pub handle_any_write : Network → IoCommand → WriteIntent → IoWorker → Option IoWorker
unfolding write_encoded report_write_failure resolve encode_write_of
handle_any_write net command intent w = elim w.conn [
  | none ↦ some (
      report_write_failure command not_connected
        (resolved_to command.subscription (some not_connected) w))
  | some _ ↦ write_if_encoded net command (encode_write_of net intent) w
]

unfoldable pub handle_write : Network → IoCommand → IoWorker → Option IoWorker
unfolding handle_any_write
handle_write net command w = elim command.intent [
  | none ↦ none
  | some intent ↦ elim command.subscription [
    | none ↦ none
    | some _ ↦ handle_any_write net command intent w
  ]
]

unfoldable pub handle_replay_write : Network → IoCommand → IoWorker → Option IoWorker
unfolding handle_any_write
handle_replay_write net command w = elim command.intent [
  | none ↦ none
  | some intent ↦ handle_any_write net (record command { subscription = none }) intent w
]

unfoldable pub handle_ping : Network → IoCommand → IoWorker → Option IoWorker
unfolding write_encoded encode_write_of
handle_ping net command w = elim command.intent [
  | none ↦ none
  | some intent ↦ elim w.conn [
    | none ↦ some w
    | some _ ↦
        write_if_encoded net (record command { subscription = none }) (encode_write_of net intent) w
  ]
]

abbrev dispatch : IoCommandType → Network → IoCommand → IoWorker → Option IoWorker
dispatch IoCommandType.connect net command w = handle_connect net command w
dispatch IoCommandType.reconnect net command w = handle_reconnect net command w
dispatch IoCommandType.write net command w = handle_write net command w
dispatch IoCommandType.replay_write net command w = handle_replay_write net command w
dispatch IoCommandType.ping net command w = handle_ping net command w

-- One command of `loop`; no answer is a panic.
unfoldable pub serve : Network → IoCommand → IoWorker → Option IoWorker
unfolding handle_connect handle_reconnect handle_write handle_replay_write handle_ping
serve net command w = dispatch command.type net command w
