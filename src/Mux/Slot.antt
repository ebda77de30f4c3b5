-- ===== src/Mux/Slot.antt =====
-- mux.go of internal/core/pkg/wsrefact_v6: what the run loop does to one worker's runtime.
use custom_hts_legacy.Prelude.{
  ℕ, suc, ◌+◌, ◌%◌, ◌^◌, Bool, true, false, Option, none, some, List, [], ◌∷◌, String,
  if◌then◌else◌, nat_beq, string_eq,
}
use custom_hts_legacy.Prelude.Int.{pos, leb_ℤ}
use custom_hts_legacy.Prelude.Maps.{lookup}
use custom_hts_legacy.Mux.Types.{
  WriteIntent, WriteIntentAction, IoCommand, IoCommandType, MuxWorkerState, MuxSubscription,
  Mailbox, Worker, Ticker, Contexts, connecting, connected, stopped, send, try_send, is_connected,
  is_stopped,
}

-- `&m.workers[workerIndex]` with the contexts that its handlers make and cancel.
pub record Slot : Type 0 where
  pub worker : Worker
  pub contexts : Contexts

-- A call of a `context.CancelFunc`, guarded by `!= nil`.
unfoldable pub cancel : Option ℕ → Contexts → Contexts
cancel none c = c
cancel (some ctx) c = record c { cancelled = ctx ∷ c.cancelled }

unfoldable pub clear_dial_cancel : Slot → Slot
unfolding cancel
clear_dial_cancel s = record s {
  worker = record (s.worker) { dial_cancel = none };
  contexts = cancel s.worker.dial_cancel s.contexts;
}

unfoldable pub stop_ping_ticker : Slot → Slot
unfolding cancel
stop_ping_ticker s = record s {
  worker = record (s.worker) { ping_cancel = none };
  contexts = cancel s.worker.ping_cancel s.contexts;
}

-- `context.WithCancel`, the old dial program's cancel, and the blocking send of a dial command.
unfoldable pub start_dial : IoCommandType → Slot → Slot
unfolding cancel send
start_dial type s = record s {
  worker = record (s.worker) { dial_cancel = some ctx; mailbox = send dial s.worker.mailbox };
  contexts = record (cancel s.worker.dial_cancel s.contexts) { next = suc ctx };
}
  where
    ctx : ℕ
    ctx = s.contexts.next

    dial : IoCommand
    dial = record {
      type = type;
      intent = none;
      subscription = none;
      dial_ctx = some ctx;
      publish_write_failure = false;
    }

abbrev pub with_state : MuxWorkerState → Slot → Slot
with_state state s = record s { worker = record (s.worker) { state = state } }

unfoldable pub start_connect : Slot → Slot
unfolding start_dial
start_connect s = start_dial IoCommandType.connect (with_state connecting s)

abbrev pub is_dialing_again : MuxWorkerState → Bool
is_dialing_again MuxWorkerState.reconnecting = true
is_dialing_again MuxWorkerState.stopped = true
is_dialing_again _ = false

unfoldable pub start_reconnect : Slot → Slot
unfolding start_dial stop_ping_ticker
start_reconnect s =
    if is_dialing_again s.worker.state
    then s
    else start_dial IoCommandType.reconnect
        (stop_ping_ticker (with_state MuxWorkerState.reconnecting s))

abbrev pub replay_command : WriteIntent → IoCommand
replay_command intent = record {
  type = IoCommandType.replay_write;
  intent = some intent;
  subscription = none;
  dial_ctx = none;
  publish_write_failure = true;
}

-- The loop of `runReplay` over the desired keys.
unfoldable pub replay_keys : List (String × MuxSubscription) → List String → Mailbox → Mailbox
unfolding send
replay_keys subs [] b = b
replay_keys subs (key ∷ keys) b =
    replay_keys subs keys
      (elim (lookup key subs) [ none ↦ b | some entry ↦ send (replay_command entry.intent) b ])

-- `runReplay`; with no desired key the loop has no round.
unfoldable pub run_replay : List (String × MuxSubscription) → Slot → Slot
unfolding replay_keys
run_replay subs s = if is_stopped s.worker.state then s else record s {
  worker = record (s.worker) {
    mailbox = replay_keys subs s.worker.desired_keys s.worker.mailbox;
    state = connected;
  };
}

-- A `uint64` counter.
abbrev pub next_epoch : ℕ → ℕ
next_epoch epoch = (epoch + 1) % 2 ^ 64

unfoldable pub launch_ticker : ℕ → Slot → Slot
launch_ticker worker_index s = record s {
  worker = record (s.worker) { heartbeat_epoch = epoch; ping_cancel = some ctx };
  contexts = record (s.contexts) { next = suc ctx; tickers = ticker ∷ s.contexts.tickers };
}
  where
    epoch : ℕ
    epoch = next_epoch s.worker.heartbeat_epoch

    ctx : ℕ
    ctx = s.contexts.next

    ticker : Ticker
    ticker = record { worker_index = worker_index; epoch = epoch; ctx = ctx }

unfoldable pub start_ping_ticker : ℕ → Slot → Slot
unfolding launch_ticker
start_ping_ticker worker_index s =
    if leb_ℤ s.worker.ping_interval (pos 0)
    then s
    else (if is_connected s.worker.state then launch_ticker worker_index s else s)

unfoldable pub handle_worker_ready : List (String × MuxSubscription) → ℕ → Slot → Slot
unfolding clear_dial_cancel run_replay start_ping_ticker
handle_worker_ready subs worker_index s =
    start_ping_ticker worker_index (run_replay subs (clear_dial_cancel s))

abbrev pub ping_command : IoCommand
ping_command = record {
  type = IoCommandType.ping;
  intent = some (record { key = ""; action = WriteIntentAction.ping });
  subscription = none;
  dial_ctx = none;
  publish_write_failure = true;
}

-- The non-blocking send of a ping: a full mailbox drops it.
unfoldable pub offer_ping : Slot → Slot
unfolding try_send
offer_ping s = elim (try_send ping_command s.worker.mailbox) [
  | none ↦ s
  | some b ↦ record s { worker = record (s.worker) { mailbox = b } }
]

unfoldable pub handle_ping_tick : ℕ → Slot → Slot
unfolding offer_ping
handle_ping_tick epoch s =
    if is_connected s.worker.state
    then (if nat_beq epoch s.worker.heartbeat_epoch then offer_ping s else s)
    else s

-- The body of `handleShutdown`'s loop over the workers.
unfoldable pub close_worker : Slot → Slot
unfolding stop_ping_ticker clear_dial_cancel
close_worker s =
    let t = clear_dial_cancel (with_state stopped (stop_ping_ticker s)) in
    record t {
      worker = record (t.worker) { mailbox = record (t.worker.mailbox) { closed = true } };
    }
