-- ===== src/Mux/Client.antt =====
-- internal/core/pkg/wsrefact_v6/client.go: the caller's view of the mux, and its life cycle gate.
use custom_hts_legacy.Prelude.{
  ℕ, suc, ◌≤◌, ◌≡◌, Bool, true, false, Option, none, some, List, [], ◌∷◌, ◌++◌, String,
  if◌then◌else◌, ltb, length,
}
use custom_hts_legacy.Mux.Types.{
  Err, Result, ok, err, mux_stopped, queue_full, UserCommand, UserCommandKind,
}

-- The client with the command channel of its mux: the capacity, what was sent and not yet received,
-- whether it is closed, and the number of the next subscription handle.
pub record Client : Type 0 where
  pub stopped : Bool
  pub fatal_err : Option Err
  pub capacity : ℕ
  pub commands : List UserCommand
  pub closed : Bool
  pub next_subscription : ℕ

-- `(*Mux).submitCommand`: the non-blocking send of a command with a new handle.
unfoldable pub submit_command : UserCommandKind → String → Client → Client × Result ℕ
submit_command kind key c =
    if ltb (length c.commands) c.capacity
    then (
      record c {
        commands = c.commands ++ (command ∷ []);
        next_subscription = suc c.next_subscription;
      },
      ok c.next_subscription,
    )
    else (record c { next_subscription = suc c.next_subscription }, err queue_full)
  where
    command : UserCommand
    command = record { kind = kind; key = key; subscription = c.next_subscription }

unfoldable pub submit_locked : UserCommandKind → String → Client → Client × Result ℕ
unfolding submit_command
submit_locked kind key c = if c.stopped then (c, err mux_stopped) else submit_command kind key c

unfoldable pub subscribe : String → Client → Client × Result ℕ
unfolding submit_locked
subscribe key c = submit_locked UserCommandKind.subscribe key c

unfoldable pub unsubscribe : String → Client → Client × Result ℕ
unfolding submit_locked
unsubscribe key c = submit_locked UserCommandKind.unsubscribe key c

-- `(*Mux).stop`, once.
unfoldable pub close_commands : Client → Client
close_commands c = record c { closed = true }

unfoldable pub stop : Client → Client
unfolding close_commands
stop c = if c.stopped then c else close_commands (record c { stopped = true })

abbrev first_error : Option Err → Err → Option Err
first_error none e = some e
first_error (some old) e = some old

unfoldable pub mark_fatal_and_stop : Err → Client → Client
unfolding close_commands
mark_fatal_and_stop e c =
    let marked = record c { fatal_err = first_error c.fatal_err e } in
    if c.stopped then marked else close_commands (record marked { stopped = true })

-- What callers and the fatal watcher do, one call at a time, since each holds the lock.
pub data Call : Type 0 where
  subscribes unsubscribes : String → Call
  stops : Call
  fatal : Err → Call

unfoldable pub call : Call → Client → Client
unfolding subscribe unsubscribe stop mark_fatal_and_stop
call (subscribes key) c = (subscribe key c).0
call (unsubscribes key) c = (unsubscribe key c).0
call stops c = stop c
call (fatal e) c = mark_fatal_and_stop e c

unfoldable pub calls : List Call → Client → Client
unfolding call
calls [] c = c
calls (x ∷ xs) c = calls xs (call x c)

-- The gate and the channel agree, and the channel holds at most its capacity.
pub record IsGated (c : Client) : Type 0 where
  pub gate : c.closed ≡ c.stopped
  pub bounded : length c.commands ≤ c.capacity

-- What shuts the gate: the stop, or a fatal event.
abbrev pub ends : Call → Bool
ends (subscribes key) = false
ends (unsubscribes key) = false
ends stops = true
ends (fatal e) = true
