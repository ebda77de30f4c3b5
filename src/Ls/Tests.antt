-- ===== src/Ls/Tests.antt =====
-- Runs of the models of internal/adapter/broker/ls.
use custom_hts_legacy.Prelude.{
  ℕ, ◌≡◌, refl, true, false, Option, none, some, List, [], ◌∷◌, arith, nat_eq, if◌then◌else◌, ◌↔◌,
  inr, length, is_some,
}
use custom_hts_legacy.Prelude.Int.{pos, negsuc}
use custom_hts_legacy.Prelude.{◌<◌}
use custom_hts_legacy.Prelude.Texts.{
  Text, text_eq, codes, trim_space, trim_left, trim_right, is_space, byte_len,
}
use custom_hts_legacy.Prelude.Maps.{lookup, insert, delete}
use custom_hts_legacy.Ls.Routes
use custom_hts_legacy.Ls.Routes.{
  Err, failed, acct, rt, RouteKey, parse_transport_key, build_transport_key,
  normalize_ws_issue_code,
}
use custom_hts_legacy.Ls.Keys.{print, IsPrintable, parse_iff_print, encode_write-build}
use custom_hts_legacy.Ls.Slots.{encode_write, text_frame, scope_of, call_type, action_of}
use custom_hts_legacy.Ls.Slots
use custom_hts_legacy.Ls.Stories.{story, IsStory}
use custom_hts_legacy.Ls.Lifetimes.{turns_accepted}
use custom_hts_legacy.Ls.Losses.{stale_reader_silent}
use custom_hts_legacy.Ls.Conns.{
  Dependencies, normalize_dependencies, new_conn_registry, Choice, select_slot, acquires, releases,
  starts, moves, acquire,
}
use custom_hts_legacy.Ls.Conns
use custom_hts_legacy.Ls.Choosing.{IsEven, normalized_select-IsEven}
use custom_hts_legacy.Ls.Placing.{IsPlaced}
use custom_hts_legacy.Ls.Acquiring.{moves-IsPlaced}
use custom_hts_legacy.Ls.Realtime
use custom_hts_legacy.Ls.Realtime.{pending, refused, ended, settle, unsubscribe}
use custom_hts_legacy.Ls.Races.{IsSettled, subscribe_outcome, rollback_drops_other}
use custom_hts_legacy.Ls.Messages.{Decoder, Header, Service, handle_transport_message}
use custom_hts_legacy.Ls.Causes.{TellsOf, Handled}
use custom_hts_legacy.Ls.Streams.{message-IsHandled}
use custom_hts_legacy.Ls.Messages.{raw_realtime_ignored}
use custom_hts_legacy.Prelude.{nat_beq, ◌⊎◌, none}
use custom_hts_legacy.Ls.Fanout.{Kind, Message, Registry, new_registry, publish, route_key, Channel}
use custom_hts_legacy.Ls.Fanout
use custom_hts_legacy.Ls.Handles
use custom_hts_legacy.Ls.Handles.{Op, subscribes, closes, publishes, run}
use custom_hts_legacy.Ls.Serving.{IsFanned}
use custom_hts_legacy.Ls.Delivering.{delivered, is_subscriber, publish_delivers}
use custom_hts_legacy.Ls.Subscribers.{clients-IsFanned}

abbrev samsung : Text
samsung = codes "005930"

-- A service that refuses its first call and accepts the others.
wary : Fanout.Service
wary [] call = some (Err.foreign 7)
wary (c ∷ h) call = none

abbrev tick : Message
tick = record {
  tr_code = codes "US3";
  tr_key = samsung;
  conn_id = "ls-ws-1";
  body = 71000;
  received_at = 1;
}

-- The first subscribe is refused, two succeed, one of these is closed.
abbrev ops : List Op
ops =
    subscribes Kind.trade samsung
    ∷ subscribes Kind.trade (codes " A005930")
    ∷ subscribes Kind.trade samsung
    ∷ closes 2
    ∷ publishes Kind.trade tick
    ∷ []

clients-IsFanned_example : IsFanned (run wary ops new_registry)
clients-IsFanned_example = clients-IsFanned wary ops (omega arith)

abbrev key : Text
key = build_transport_key rt (codes "US3") samsung

abbrev route : RouteKey
route = record { scope = codes "rt"; tr_code = codes "US3"; tr_key = samsung }

encode_write-build_example :
    encode_write
      (some (inr 5))
      (action_of true)
      (build_transport_key (scope_of true) (codes "SC1") (codes "me"))
    ≡ inr (text_frame 5 (codes "1") (codes "SC1") (codes "me"))
encode_write-build_example =
    encode_write-build true true (codes "SC1") (codes "me") 5 tt tt (omega arith)

-- Limits that are not positive are defaults.
abbrev deps : Dependencies
deps = record {
  max_conn_slots = pos 2;
  max_routes_per_slot = pos 1;
  route_fill_step = negsuc 0;
  idle_slot_ttl = negsuc 0;
}

-- The second connection is counted while the first one's read loop has found its loss and not told of it.
abbrev turn_list : List Slots.Turn
turn_list =
    Slots.connects
    ∷ Slots.announces
    ∷ Slots.fails 1
    ∷ Slots.connects
    ∷ Slots.announces
    ∷ Slots.reports 1
    ∷ Slots.reports 1
    ∷ []

turns_accepted_example :
    let s = Slots.turns turn_list Slots.new_conn_slot in
    IsStory 1 s.connect_count (story 1 s.events)
turns_accepted_example = turns_accepted turn_list 1

abbrev overtaken : List Slots.Turn
overtaken = Slots.connects ∷ Slots.announces ∷ Slots.connects ∷ []

overtaken_reads : lookup 1 (Slots.turns overtaken Slots.new_conn_slot).loops ≡ some Slots.reading
unfolding Slots.turns Slots.new_conn_slot lookup insert
overtaken_reads = refl

overtaken_later : 1 < (Slots.turns overtaken Slots.new_conn_slot).connect_count
unfolding Slots.turns Slots.new_conn_slot
overtaken_later = omega arith

stale_reader_silent_example :
    story 1
      (Slots.turns
        (Slots.fails 1 ∷ Slots.reports 1 ∷ [])
        (Slots.turns overtaken Slots.new_conn_slot)).events
    ≡ Slots.up 1 ∷ []
stale_reader_silent_example =
    stale_reader_silent overtaken (Slots.fails 1 ∷ Slots.reports 1 ∷ []) 1 overtaken_reads
      overtaken_later

abbrev factory : Conns.Factory
factory id = none

-- The second key gets a slot of its own, the third finds none; then the first slot's route goes.
abbrev move_list : List Conns.Move
move_list =
    starts
    ∷ acquires (codes "rt:US3:000020")
    ∷ acquires key
    ∷ acquires (codes "rt:US3:000010")
    ∷ releases (codes "rt:US3:000020") 1
    ∷ acquires (codes "rt:US3:000010")
    ∷ []

moves-IsPlaced_example :
    let lim = normalize_dependencies deps in
    IsPlaced lim (moves lim factory move_list new_conn_registry)
moves-IsPlaced_example = moves-IsPlaced deps factory move_list

abbrev one_slot : List (ℕ × Conns.Slot)
one_slot = (1, record { routes = (key, tt) ∷ []; idle_timer = none; is_running = true }) ∷ []

normalized_select-IsEven_example :
    let lim = normalize_dependencies deps in
    (c : Choice) × (select_slot lim one_slot ≡ some c) × IsEven lim one_slot c
normalized_select-IsEven_example = normalized_select-IsEven deps one_slot

abbrev lim : Conns.Limits
lim = normalize_dependencies deps

abbrev started : Conns.Registry
started = moves lim factory (starts ∷ []) new_conn_registry

subscribe_outcome_example :
    (r' : Conns.Registry) × (reply : Option Err) × (Realtime.subscribe lim factory key
        (ended (some (failed 3)))
        started
      ≡ some (r', reply))
    × IsPlaced lim r'
    × IsSettled key started r' reply
subscribe_outcome_example =
    subscribe_outcome deps factory key started (moves-IsPlaced deps factory (starts ∷ []))
      (ended (some (failed 3)))

abbrev taken : Conns.Registry
taken = moves lim factory (starts ∷ acquires key ∷ []) new_conn_registry

first_acquire : acquire lim factory key started ≡ some (taken, inr (1, false))
unfolding moves acquire normalize_dependencies new_conn_registry Conns.start select_slot Conns.place
    Conns.create_slot Conns.start_slot Conns.start_slots lookup insert build_transport_key
first_acquire = refl

rollback_drops_other_example :
    let r2 = (settle lim key (inr (1, false)) (refused (failed 3)) taken).0 in
    (Realtime.subscribe lim factory key pending taken ≡ some (taken, none))
    × (lookup key r2.route_owners ≡ none)
    × (unsubscribe lim key pending r2 ≡ (r2, none))
rollback_drops_other_example =
    rollback_drops_other deps factory key started (moves-IsPlaced deps factory (starts ∷ [])) taken
      1 (failed 3) pending first_acquire

abbrev empty_header : Header
empty_header = record {
  tr_type = [];
  tr_code = codes "US3";
  tr_key = samsung;
  rsp_cd = [];
  rsp_msg = [];
  msg_cd = [];
  msg = [];
}

abbrev decoder : Decoder
decoder = record {
  envelope = λ s. some (record { header = empty_header; body = samsung });
  body = λ stream s. some (length s);
}

abbrev quiet : Service
quiet = record { channels = λ stream. []; events = [] }

message-IsHandled_example :
    let svc' = handle_transport_message decoder "ls-ws-1" (codes "{}") quiet in
    ((nat_beq b'{' b'{' ≡ false) × TellsOf decoder "ls-ws-1" 2 quiet svc' raw_realtime_ignored none)
    ⊎ ((nat_beq b'{' b'{' ≡ true) × Handled decoder "ls-ws-1" 2 quiet svc' (codes "{}"))
unfolding byte_len
message-IsHandled_example = message-IsHandled decoder "ls-ws-1" b'{' (b'}' ∷ []) quiet

parse_iff_print_example :
    (parse_transport_key key ≡ inr route) ↔ (IsPrintable route × (print route ≡ key))
parse_iff_print_example = parse_iff_print key route

-- The client after the calls above, before the message.
abbrev before : Registry
before = run wary (subscribes Kind.trade samsung ∷ subscribes Kind.trade samsung ∷ []) new_registry

abbrev fresh : Channel
fresh = record { buffer = []; is_closed = false }

before-channel : lookup 2 before.channels ≡ some fresh
unfolding run new_registry wary lookup insert Fanout.acquire Fanout.close_channel Handles.subscribe
    Handles.normalize normalize_ws_issue_code trim_space trim_left trim_right is_space byte_len
    Fanout.route_key Fanout.attach Fanout.ask Routes.normalize_realtime_code delete
before-channel = refl

publish_delivers_example :
    let there = lookup (route_key tick.tr_code tick.tr_key) (before.routes Kind.trade) in
    ((publish Kind.trade tick before).1 ≡ is_some there)
    × (lookup 2 (publish Kind.trade tick before).0.channels
        ≡ some (if is_subscriber 2 there then delivered tick fresh else fresh))
publish_delivers_example =
    publish_delivers Kind.trade tick before 2 fresh
      (clients-IsFanned wary (subscribes Kind.trade samsung ∷ subscribes Kind.trade samsung ∷ [])
        (omega arith))
      before-channel
