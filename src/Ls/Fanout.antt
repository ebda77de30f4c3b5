-- ===== src/Ls/Fanout.antt =====
-- internal/adapter/broker/ls/client: the local subscribers of a route, their channels, and the calls on the
-- realtime service that the first and the last of them cause. The registry has the same code three times, for
-- trades, quotes and executions: here the kind is an argument, and the three maps are a function of it. Every
-- operation holds the registry's mutex, so it is one step. The service's answers are a function of the calls so
-- far. A channel is told apart by the identifier of the subscriber that it was made for, and `panicked` is set
-- where Go would panic: on a send to a closed channel and on a second close.
use custom_hts_legacy.Prelude.{
  ℕ, ◌+◌, ◌%◌, ◌^◌, String, ◌≡◌, ◌↔◌, Bool, true, false, ◌||◌, not, Option, none, some, List, [],
  ◌∷◌, ◌++◌, arith, ltb, ◌==◌, Eq, nat_eq, if◌then◌else◌, ◌⊎◌, inl, inr, length, filter_by,
}
use custom_hts_legacy.Prelude.Texts.{Text, codes, text_eq, trim_space}
use custom_hts_legacy.Prelude.Maps.{lookup, insert, delete}
use custom_hts_legacy.Ls.Routes.{colon, normalize_realtime_code, normalize_execution_key}
use custom_hts_legacy.Ls.Routes

pub data Kind : Type 0 where
  trade quote execution : Kind

abbrev pub kind_beq : Kind → Kind → Bool
kind_beq trade trade = true
kind_beq quote quote = true
kind_beq execution execution = true
kind_beq _ _ = false

pub kind_beq_iff : (a b : Kind) → (kind_beq a b ≡ true) ↔ (a ≡ b)
kind_beq_iff trade b = ground arith
kind_beq_iff quote b = ground arith
kind_beq_iff execution b = ground arith

instance abbrev pub kind_eq : Eq Kind
kind_eq = record { beq = kind_beq; beq_iff = kind_beq_iff }

abbrev pub tr_code_of : Kind → Text
tr_code_of trade = codes "US3"
tr_code_of quote = codes "UH1"
tr_code_of execution = codes "SC1"

pub data Err : Type 0 where
  subscription_not_found : Kind → Text → Text → Err
  other : Routes.Err → Err

pub record Message : Type 0 where
  pub tr_code : Text
  pub tr_key : Text
  pub conn_id : String
  pub body : ℕ
  pub received_at : ℕ

pub record Channel : Type 0 where
  pub buffer : List Message
  pub is_closed : Bool

pub record Route : Type 0 where
  pub tr_code : Text
  pub tr_key : Text
  pub subscribers : List ℕ

-- EventSubscriberChannelFull.
pub record Event : Type 0 where
  pub stream : Kind
  pub tr_code : Text
  pub tr_key : Text
  pub conn_id : String
  pub received_at : ℕ

-- A subscription that a caller holds.
pub record Handle : Type 0 where
  pub kind : Kind
  pub tr_code : Text
  pub tr_key : Text
  pub is_closed : Bool

pub data Call : Type 0 where
  subscribed unsubscribed : Kind → Text → Call

-- The calls with their answers, the last one first.
abbrev pub History : Type 0
History = List (Call × Option Routes.Err)

abbrev pub Service : Type 0
Service = History → Call → Option Routes.Err

pub record Registry : Type 0 where
  pub next_subscriber_id : ℕ
  pub routes : Kind → List (Text × Route)
  pub channels : List (ℕ × Channel)
  pub handles : List (ℕ × Handle)
  pub events : List Event
  pub history : History
  pub panicked : Bool

unfoldable pub new_registry : Registry
new_registry = record {
  next_subscriber_id = 0;
  routes = λ kind. [];
  channels = [];
  handles = [];
  events = [];
  history = [];
  panicked = false;
}

abbrev pub subscription_buf : ℕ
subscription_buf = 64

abbrev pub event_buf : ℕ
event_buf = 256

unfoldable pub route_key : Text → Text → Text
route_key tr_code tr_key = trim_space tr_code ++ (colon ∷ trim_space tr_key)

abbrev pub with_routes : Kind → List (Text × Route) → Registry → Registry
with_routes kind table r = record r { routes = λ k. if k == kind then table else r.routes k }

-- A call on the service, with its answer.
unfoldable pub ask : Service → Call → Registry → Registry × Option Routes.Err
ask service call r =
    let reply = service r.history call in (record r { history = (call, reply) ∷ r.history }, reply)

abbrev pub has_id : ℕ → List ℕ → Bool
has_id id [] = false
has_id id (i ∷ ids) = i == id || has_id id ids

abbrev pub add_id : ℕ → List ℕ → List ℕ
add_id id ids = if has_id id ids then ids else ids ++ (id ∷ [])

abbrev pub remove_id : ℕ → List ℕ → List ℕ
remove_id id = filter_by (λ i. not (i == id))

unfoldable pub close_channel : ℕ → Registry → Registry
close_channel id r = elim (lookup id r.channels) [
  | none ↦ r
  | some ch ↦
      if ch.is_closed
      then record r { panicked = true }
      else record r { channels = insert id (record ch { is_closed = true }) r.channels }
]

abbrev pub found_route : Text → Text → Option Route → Route
found_route tr_code tr_key none = record { tr_code = tr_code; tr_key = tr_key; subscribers = [] }
found_route tr_code tr_key (some route) = route

abbrev pub acquired : Kind → Text → ℕ → Registry × Option Routes.Err → Registry × (Err ⊎ ℕ)
acquired kind key id (r, none) = (r, inr id)
acquired kind key id (r, some e) =
    (close_channel id (with_routes kind (delete key (r.routes kind)) r), inl (other e))

abbrev pub attach_as : Service → Kind → Text → Text → ℕ → Bool → Registry → Registry × (Err ⊎ ℕ)
attach_as service kind key tr_key id true r =
    acquired kind key id (ask service (subscribed kind tr_key) r)
attach_as service kind key tr_key id false r = (r, inr id)

-- A new subscriber of `route`; the first one subscribes at the service.
unfoldable pub attach : Service → Kind → Text → Text → Route → Registry → Registry × (Err ⊎ ℕ)
attach service kind key tr_key route r =
    let id = (r.next_subscriber_id + 1) % 2 ^ 64 in
    let ids = add_id id route.subscribers in
    let r' =
      record (with_routes kind (insert key (record route { subscribers = ids }) (r.routes kind))
        r) {
          next_subscriber_id = id;
          channels = insert id (record { buffer = []; is_closed = false }) r.channels;
        } in
    attach_as service kind key tr_key id (nat_eq.beq (length ids) 1) r'

unfoldable pub acquire : Service → Kind → Text → Text → Registry → Registry × (Err ⊎ ℕ)
unfolding attach
acquire service kind tr_code tr_key r =
    let key = route_key tr_code tr_key in
    attach service kind key tr_key (found_route tr_code tr_key (lookup key (r.routes kind))) r

abbrev pub not_found : Kind → Text → Text → Registry → Registry × Option Err
not_found kind tr_code tr_key r = (r, some (subscription_not_found kind tr_code tr_key))

-- `route` without the subscriber; the last one takes the route with it.
abbrev pub without : Text → Route → ℕ → List (Text × Route) → List (Text × Route)
without key route id table =
    let rest = remove_id id route.subscribers in
    if nat_eq.beq (length rest) 0
    then delete key table
    else insert key (record route { subscribers = rest }) table

abbrev pub released : Kind → Text → Route → ℕ → Registry × Option Routes.Err → Registry × Option Err
released kind key route id (r, some e) = (r, some (other e))
released kind key route id (r, none) =
    (close_channel id (with_routes kind (without key route id (r.routes kind)) r), none)

unfoldable pub release : Service → Kind → Text → Text → ℕ → Registry → Registry × Option Err
release service kind tr_code tr_key id r =
    let key = route_key tr_code tr_key in
    elim (lookup key (r.routes kind)) [
      | none ↦ not_found kind tr_code tr_key r
      | some route ↦
          if has_id id route.subscribers
          then (if nat_eq.beq (length route.subscribers) 1
              then released kind key route id (ask service (unsubscribed kind tr_key) r)
              else released kind key route id (r, none))
          else not_found kind tr_code tr_key r
    ]

unfoldable pub close_channels : List ℕ → Registry → Registry
close_channels [] r = r
close_channels (id ∷ ids) r = close_channels ids (close_channel id r)

abbrev pub closed_route : Kind → Text → Route → Registry × Option Routes.Err → Registry × Option Err
closed_route kind key route (r, some e) = (r, some (other e))
closed_route kind key route (r, none) =
    (close_channels route.subscribers (with_routes kind (delete key (r.routes kind)) r), none)

unfoldable pub close_route : Service → Kind → Text → Text → Registry → Registry × Option Err
unfolding close_channels
close_route service kind tr_code tr_key r =
    let key = route_key tr_code tr_key in
    elim (lookup key (r.routes kind)) [
      | none ↦ not_found kind tr_code tr_key r
      | some route ↦ closed_route kind key route (ask service (unsubscribed kind tr_key) r)
    ]

-- An event that finds the client's event channel full is dropped.
unfoldable pub emit_channel_full : Kind → Route → Message → Registry → Registry
emit_channel_full kind route msg r =
    if ltb (length r.events) event_buf
    then record r {
      events =
          r.events
          ++ (record {
            stream = kind;
            tr_code = route.tr_code;
            tr_key = route.tr_key;
            conn_id = msg.conn_id;
            received_at = msg.received_at;
          }
              ∷ []);
    }
    else r

-- One pass of the loop of a publish: a full channel misses the message.
unfoldable pub offer : Kind → Route → Message → ℕ → Registry → Registry
offer kind route msg id r = elim (lookup id r.channels) [
  | none ↦ r
  | some ch ↦
      if ch.is_closed
      then record r { panicked = true }
      else if ltb (length ch.buffer) subscription_buf
      then record r {
        channels = insert id (record ch { buffer = ch.buffer ++ (msg ∷ []) }) r.channels;
      }
      else emit_channel_full kind route msg r
]

unfoldable pub offer_all : Kind → Route → Message → List ℕ → Registry → Registry
offer_all kind route msg [] r = r
offer_all kind route msg (id ∷ ids) r = offer_all kind route msg ids (offer kind route msg id r)

unfoldable pub publish : Kind → Message → Registry → Registry × Bool
publish kind msg r = elim (lookup (route_key msg.tr_code msg.tr_key) (r.routes kind)) [
  | none ↦ (r, false)
  | some route ↦ (offer_all kind route msg route.subscribers r, true)
]
