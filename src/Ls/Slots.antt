-- ===== src/Ls/Slots.antt =====
-- internal/adapter/broker/ls/api/ws/slot.go: the frames that a slot writes, and what it reports of its
-- connection. `connect_count` numbers the live connections of a slot, its generations; each has a read loop, a
-- goroutine that ends when a read fails. A token, a payload and an error of a read are told apart by a number or
-- given by their parts; the reads themselves and the deadlines are left out.
use custom_hts_legacy.Prelude.{
  ℕ, ◌+◌, ◌-◌, Bool, true, false, ◌||◌, not, Option, none, some, List, [], ◌∷◌, ◌++◌, nat_beq,
  if◌then◌else◌, ◌⊎◌, inl, inr,
}
use custom_hts_legacy.Prelude.{nat_eq}
use custom_hts_legacy.Prelude.Maps.{lookup, insert, delete}
use custom_hts_legacy.Prelude.Texts.{Text, codes}
use custom_hts_legacy.Ls.Routes.{
  rt, acct, Err, foreign, Action, subscribe, unsubscribe, ping, RouteKey, parse_transport_key,
  resolve_tr_type,
}

-- An `EncodedWrite`: a ping, or a text frame with the parts of `wsRequest`.
pub data Frame : Type 0 where
  ping_frame : Frame
  text_frame : (token : ℕ) (tr_type tr_cd tr_key : Text) → Frame

abbrev pub framed : Err ⊎ ℕ → RouteKey → Err ⊎ Text → Err ⊎ Frame
framed token route (inl e) = inl e
framed (inl e) route (inr tr_type) = inl e
framed (inr token) route (inr tr_type) = inr (text_frame token tr_type route.tr_code route.tr_key)

abbrev pub encode_route : Err ⊎ ℕ → Action → Err ⊎ RouteKey → Err ⊎ Frame
encode_route token action (inl e) = inl e
encode_route token action (inr route) = framed token route (resolve_tr_type route.scope action)

-- A slot without an `Auth` has none to ask for a token.
abbrev pub encode_authorized : Option (Err ⊎ ℕ) → Action → Text → Err ⊎ Frame
encode_authorized none action key = inl (foreign 0)
encode_authorized (some token) action key = encode_route token action (parse_transport_key key)

unfoldable pub encode_write : Option (Err ⊎ ℕ) → Action → Text → Err ⊎ Frame
encode_write auth ping key = inr ping_frame
encode_write auth subscribe key = encode_authorized auth subscribe key
encode_write auth unsubscribe key = encode_authorized auth unsubscribe key

-- What subscribeRealtimeTransport and its siblings pass on: the scope, and the action code of the call.
abbrev pub scope_of : Bool → Text
scope_of true = acct
scope_of false = rt

abbrev pub call_type : Bool → Bool → Text
call_type true true = codes "1"
call_type true false = codes "2"
call_type false true = codes "3"
call_type false false = codes "4"

-- The action that the mux replays for a call that registers, or for one that does not.
abbrev pub action_of : Bool → Action
action_of true = subscribe
action_of false = unsubscribe

-- corews.ConnEvent, with its attempt.
pub data ConnEvent : Type 0 where
  connected reconnected disconnected reconnecting : ℕ → ConnEvent

-- Where a read loop stands: it reads, it has found that its connection was the live one and is about to report the
-- loss, or it has made the first of the two reports.
pub data Stage : Type 0 where
  reading losing lost : Stage

-- `connecting` is the generation that the connect callback has counted and not yet told of; the callback is called
-- by the one worker of the slot's client, so that its calls do not overlap. `loops` are the read loops that run.
pub record ConnState : Type 0 where
  pub connect_count : ℕ
  pub stopping : Bool
  pub connecting : Option ℕ
  pub loops : List (ℕ × Stage)
  pub events : List ConnEvent

unfoldable pub new_conn_slot : ConnState
new_conn_slot = record {
  connect_count = 0;
  stopping = false;
  connecting = none;
  loops = [];
  events = [];
}

abbrev pub handle_status : ConnEvent → ConnState → ConnState
handle_status event s = record s { events = s.events ++ (event ∷ []) }

-- The event of a new generation.
abbrev pub up : ℕ → ConnEvent
up generation =
    if nat_beq generation 1 then connected (generation - 1) else reconnected (generation - 1)

abbrev pub counted : Option ℕ → ConnState → ConnState
counted (some generation) s = s
counted none s =
    if s.stopping
    then s
    else record s { connect_count = s.connect_count + 1; connecting = some (s.connect_count + 1) }

-- `handleConnected` up to the release of `stateMu`.
unfoldable pub count_connection : ConnState → ConnState
count_connection s = counted s.connecting s

abbrev pub announced : Option ℕ → ConnState → ConnState
announced none s = s
announced (some generation) s = record (handle_status (up generation) s) {
  connecting = none;
  loops = insert generation reading s.loops;
}

-- The rest of `handleConnected`: the event, and then the read loop.
unfoldable pub announce : ConnState → ConnState
announce s = announced s.connecting s

abbrev pub failed : Option Stage → ℕ → ConnState → ConnState
failed (some reading) generation s =
    if s.stopping || not (nat_beq generation s.connect_count)
    then record s { loops = delete generation s.loops }
    else record s { loops = insert generation losing s.loops }
failed found generation s = s

-- A read of the loop of a generation fails: `handleReadFailure` up to its return, or up to its first event.
unfoldable pub handle_read_failure : ℕ → ConnState → ConnState
handle_read_failure generation s = failed (lookup generation s.loops) generation s

abbrev pub reported : Option Stage → ℕ → ConnState → ConnState
reported (some losing) generation s =
    handle_status (disconnected (generation - 1))
      (record s { loops = insert generation lost s.loops })
reported (some lost) generation s =
    handle_status (reconnecting generation) (record s { loops = delete generation s.loops })
reported found generation s = s

-- The next of the two events of `handleReadFailure`; after the second one the loop has ended.
unfoldable pub report_loss : ℕ → ConnState → ConnState
report_loss generation s = reported (lookup generation s.loops) generation s

unfoldable pub stop : ConnState → ConnState
stop s = record s { stopping = true }

-- The steps of the goroutines, between which `stateMu` is free.
pub data Turn : Type 0 where
  connects announces stops : Turn
  fails reports : ℕ → Turn

unfoldable pub turn : Turn → ConnState → ConnState
unfolding count_connection announce handle_read_failure report_loss stop
turn connects s = count_connection s
turn announces s = announce s
turn stops s = stop s
turn (fails generation) s = handle_read_failure generation s
turn (reports generation) s = report_loss generation s

unfoldable pub turns : List Turn → ConnState → ConnState
unfolding turn
turns [] s = s
turns (t ∷ ts) s = turns ts (turn t s)
