-- ===== src/Ls/Realtime.antt =====
-- internal/adapter/broker/ls/api/ws/transport.go: the subscriptions of the realtime service. A call takes the
-- registry's mutex twice, with the command to the slot's client in between, so that the calls of goroutines
-- interleave: `acquire` and `settle`, `owner` and `leave` are the parts. What a client answers to a command is
-- an argument.
use custom_hts_legacy.Prelude.{ℕ, Bool, true, false, Option, none, some, ◌⊎◌, inl, inr}
use custom_hts_legacy.Prelude.Texts.{Text}
use custom_hts_legacy.Ls.Routes.{
  CommandErr, reconnecting, subscription_not_found, failed, Err, client, operation,
}
use custom_hts_legacy.Ls.Conns.{Limits, Factory, Registry, acquire, release, owner}

abbrev pub translate_command_error : Option CommandErr → Option Err
translate_command_error none = none
translate_command_error (some reconnecting) = none
translate_command_error (some subscription_not_found) = none
translate_command_error (some (failed n)) = some (operation (failed n))

-- What a client answers at once to a command: it refuses it, or the command has ended, or it has not yet.
pub data Answer : Type 0 where
  refused : CommandErr → Answer
  ended : Option CommandErr → Answer
  pending : Answer

-- `slot.subscribe` and `slot.unsubscribe`.
unfoldable pub observe : Answer → Option Err
observe (refused e) = some (client e)
observe (ended result) = translate_command_error result
observe pending = none

abbrev pub rolled_back : Limits → Text → ℕ → Bool → Option Err → Registry → Registry × Option Err
rolled_back lim key id existed none r = (r, none)
rolled_back lim key id true (some e) r = (r, some e)
rolled_back lim key id false (some e) r = (release lim key id r, some e)

-- The second part of a subscribe, after the client's answer.
unfoldable pub settle : Limits → Text → Err ⊎ (ℕ × Bool) → Answer → Registry → Registry × Option Err
unfolding observe
settle lim key (inl e) answer r = (r, some e)
settle lim key (inr (id, existed)) answer r = rolled_back lim key id existed (observe answer) r

abbrev pub settled :
    Limits → Text → Answer → Option (Registry × (Err ⊎ (ℕ × Bool))) → Option (Registry × Option Err)
settled lim key answer none = none
settled lim key answer (some (r, result)) = some (settle lim key result answer r)

-- A subscribe that no other call comes between.
unfoldable pub subscribe :
    Limits → Factory → Text → Answer → Registry → Option (Registry × Option Err)
unfolding acquire settle
subscribe lim factory key answer r = settled lim key answer (acquire lim factory key r)

abbrev pub released : Limits → Text → ℕ → Option Err → Registry → Registry × Option Err
released lim key id none r = (release lim key id r, none)
released lim key id (some e) r = (r, some e)

-- The second part of an unsubscribe. A route that no slot has is none to leave.
unfoldable pub leave : Limits → Text → Err ⊎ Option ℕ → Answer → Registry → Registry × Option Err
unfolding observe
leave lim key (inl e) answer r = (r, some e)
leave lim key (inr none) answer r = (r, none)
leave lim key (inr (some id)) answer r = released lim key id (observe answer) r

unfoldable pub unsubscribe : Limits → Text → Answer → Registry → Registry × Option Err
unfolding leave owner
unsubscribe lim key answer r = leave lim key (owner key r) answer r
