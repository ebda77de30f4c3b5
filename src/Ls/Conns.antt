-- ===== src/Ls/Conns.antt =====
-- internal/adapter/broker/ls/api/ws/registry.go, and the routes of slot.go: which websocket connection carries
-- which route. Every operation holds the registry's mutex, so it is one step. A `*connSlot` is the number that
-- the factory gave it, and a slot that has left the registry has neither routes nor a timer. Limits are `int`s
-- that are far below the bound of `int`, so that a sum of them does not wrap around.
use custom_hts_legacy.Prelude.{
  ℕ, zero, suc, ◌+◌, Bool, true, false, ◌&&◌, ◌||◌, not, Option, none, some, List, [], ◌∷◌, ◌++◌,
  ltb, ◌==◌, nat_eq, if◌then◌else◌, ◌⊎◌, inl, inr, length,
}
use custom_hts_legacy.Prelude.Int.{ℤ, pos, leb_ℤ, pos_part}
use custom_hts_legacy.Prelude.Texts.{Text, text_eq}
use custom_hts_legacy.Prelude.Maps.{lookup, insert, delete, keys}
use custom_hts_legacy.Ls.Routes.{Err, realtime_closed, connection_limit}

-- The limits of `Dependencies`, as a caller gives them.
pub record Dependencies : Type 0 where
  pub max_conn_slots : ℤ
  pub max_routes_per_slot : ℤ
  pub route_fill_step : ℤ
  pub idle_slot_ttl : ℤ

-- The limits of a registry. The first three are positive.
pub record Limits : Type 0 where
  pub max_conn_slots : ℕ
  pub max_routes_per_slot : ℕ
  pub route_fill_step : ℕ
  pub idle_slot_ttl : ℤ

abbrev pub or_default : ℤ → ℕ → ℕ
or_default n default = if leb_ℤ n (pos 0) then default else pos_part n

abbrev pub default_idle_slot_ttl : ℤ
default_idle_slot_ttl = pos 60000000000

unfoldable pub normalize_dependencies : Dependencies → Limits
normalize_dependencies deps =
    let routes = or_default deps.max_routes_per_slot 200 in
    let fill_step = or_default deps.route_fill_step 50 in
    record {
      max_conn_slots = or_default deps.max_conn_slots 20;
      max_routes_per_slot = routes;
      route_fill_step = if ltb routes fill_step then routes else fill_step;
      idle_slot_ttl =
          if leb_ℤ deps.idle_slot_ttl (pos 0) && leb_ℤ (pos 0) deps.idle_slot_ttl
          then default_idle_slot_ttl
          else deps.idle_slot_ttl;
    }

-- `is_running` is whether the slot has a context; a timer is a number.
pub record Slot : Type 0 where
  pub routes : List (Text × Unit {0})
  pub idle_timer : Option ℕ
  pub is_running : Bool

abbrev pub new_slot : Slot
new_slot = record { routes = []; idle_timer = none; is_running = false }

-- `slots` in their order; `launched` and `stopped` are the slots whose `run` and `stop` were called.
pub record Registry : Type 0 where
  pub is_started : Bool
  pub is_closed : Bool
  pub slots : List (ℕ × Slot)
  pub route_owners : List (Text × ℕ)
  pub next_id : ℕ
  pub next_timer : ℕ
  pub launched : List ℕ
  pub stopped : List ℕ

unfoldable pub new_conn_registry : Registry
new_conn_registry = record {
  is_started = false;
  is_closed = false;
  slots = [];
  route_owners = [];
  next_id = 1;
  next_timer = 0;
  launched = [];
  stopped = [];
}

pub data Choice : Type 0 where
  reuse : ℕ → Choice
  create full : Choice

-- The first slot with fewer routes than both numbers.
unfoldable pub first_below : ℕ → ℕ → List (ℕ × Slot) → Option ℕ
first_below ceiling most [] = none
first_below ceiling most ((id, slot) ∷ slots) =
    let count = length slot.routes in
    if ltb count ceiling && ltb count most then some id else first_below ceiling most slots

abbrev pub create_or : Limits → List (ℕ × Slot) → Option Choice → Option Choice
create_or lim slots otherwise =
    if ltb (length slots) lim.max_conn_slots then some create else otherwise

abbrev pub reuse_or : Option ℕ → Option Choice → Option Choice
reuse_or none otherwise = otherwise
reuse_or (some id) otherwise = some (reuse id)

-- The loop over the ceilings; no answer means that the fuel ran out.
unfoldable pub choose : ℕ → ℕ → Limits → List (ℕ × Slot) → Option Choice
unfolding first_below
choose zero ceiling lim slots = none
choose (suc fuel) ceiling lim slots =
    let most = lim.max_routes_per_slot in
    let rest = choose fuel (ceiling + lim.route_fill_step) lim slots in
    if ltb ceiling most
    then reuse_or (first_below ceiling most slots) (create_or lim slots rest)
    else reuse_or (first_below most most slots) (create_or lim slots (some full))

unfoldable pub select_slot : Limits → List (ℕ × Slot) → Option Choice
unfolding choose
select_slot lim slots = choose (lim.max_routes_per_slot + 1) lim.route_fill_step lim slots

-- What `NewClient` answers for the slot of a number.
abbrev pub Factory : Type 0
Factory = ℕ → Option Err

abbrev pub created_slot : ℕ → Registry → Option Err → Registry × (Err ⊎ ℕ)
created_slot id r (some e) = (r, inl e)
created_slot id r none = (record r { slots = insert id new_slot r.slots }, inr id)

unfoldable pub create_slot : Factory → Registry → Registry × (Err ⊎ ℕ)
create_slot factory r =
    created_slot r.next_id (record r { next_id = r.next_id + 1 }) (factory r.next_id)

-- `prepareSlotStartLocked` with the launch that follows it.
unfoldable pub start_slot : ℕ → Registry → Registry
start_slot id r = elim (lookup id r.slots) [
  | none ↦ r
  | some slot ↦ if not r.is_started || r.is_closed || slot.is_running then r else record r {
    slots = insert id (record slot { is_running = true }) r.slots;
    launched = r.launched ++ (id ∷ []);
  }
]

unfoldable pub start_slots : List ℕ → Registry → Registry
unfolding start_slot
start_slots [] r = r
start_slots (id ∷ ids) r = start_slots ids (start_slot id r)

abbrev pub with_primary : Factory → List (ℕ × Slot) → Registry → Registry
with_primary factory [] r = (create_slot factory r).0
with_primary factory (s ∷ slots) r = r

unfoldable pub start : Factory → Registry → Registry
unfolding create_slot start_slots
start factory r =
    if r.is_started || r.is_closed
    then r
    else let r' = with_primary factory r.slots (record r { is_started = true }) in
      start_slots (keys r'.slots) r'

-- The route goes to the slot, whose idle timer is stopped.
unfoldable pub place : Text → ℕ → Registry → Registry
place key id r = elim (lookup id r.slots) [
  | none ↦ r
  | some slot ↦ record r {
    slots =
        insert id (record slot { idle_timer = none; routes = insert key tt slot.routes }) r.slots;
    route_owners = insert key id r.route_owners;
  }
]

abbrev pub placed_new : Text → Registry × (Err ⊎ ℕ) → Registry × (Err ⊎ (ℕ × Bool))
placed_new key (r, inl e) = (r, inl e)
placed_new key (r, inr id) = (start_slot id (place key id r), inr (id, false))

abbrev pub acquire_choice :
    Factory → Text → Option Choice → Registry → Option (Registry × (Err ⊎ (ℕ × Bool)))
acquire_choice factory key none r = none
acquire_choice factory key (some (reuse id)) r = some (place key id r, inr (id, false))
acquire_choice factory key (some create) r = some (placed_new key (create_slot factory r))
acquire_choice factory key (some full) r = some (r, inl connection_limit)

-- The slot of a route, and whether it had it before.
unfoldable pub acquire : Limits → Factory → Text → Registry → Option (Registry × (Err ⊎ (ℕ × Bool)))
unfolding select_slot place create_slot start_slot
acquire lim factory key r =
    if r.is_closed then some (r, inl realtime_closed) else elim (lookup key r.route_owners) [
      | some id ↦ some (r, inr (id, true))
      | none ↦ acquire_choice factory key (select_slot lim r.slots) r
    ]

abbrev pub remove_slot : ℕ → Registry → Registry
remove_slot id r = record r { slots = delete id r.slots; stopped = r.stopped ++ (id ∷ []) }

-- An empty slot is closed at once, or waits for a timer.
unfoldable pub mark_idle : Limits → ℕ → Registry → Registry
mark_idle lim id r = elim (lookup id r.slots) [
  | none ↦ r
  | some slot ↦
      if ltb 0 (length slot.routes)
      then r
      else if r.is_closed
      then record r { stopped = r.stopped ++ (id ∷ []) }
      else if leb_ℤ lim.idle_slot_ttl (pos 0)
      then remove_slot id r
      else record r {
        slots = insert id (record slot { idle_timer = some r.next_timer }) r.slots;
        next_timer = r.next_timer + 1;
      }
]

abbrev pub drop_route : Text → ℕ → Registry → Registry
drop_route key id r = elim (lookup id r.slots) [
  | none ↦ r
  | some slot ↦ record r {
    slots = insert id (record slot { routes = delete key slot.routes }) r.slots;
  }
]

abbrev pub owns : Option ℕ → ℕ → Bool
owns none id = false
owns (some owner) id = owner == id

-- `release` and `rollback`, whose bodies are the same.
unfoldable pub release : Limits → Text → ℕ → Registry → Registry
unfolding mark_idle
release lim key id r =
    if owns (lookup key r.route_owners) id
    then mark_idle lim id
        (drop_route key id (record r { route_owners = delete key r.route_owners }))
    else r

abbrev pub is_timer : Option ℕ → ℕ → Bool
is_timer none timer = false
is_timer (some t) timer = t == timer

-- A timer of a slot fires.
unfoldable pub close_idle_slot : ℕ → ℕ → Registry → Registry
close_idle_slot id timer r = elim (lookup id r.slots) [
  | none ↦ r
  | some slot ↦
      if r.is_closed || not (is_timer slot.idle_timer timer) || ltb 0 (length slot.routes)
      then r
      else remove_slot id r
]

unfoldable pub shutdown : Registry → Registry
shutdown r = if r.is_closed then r else record r {
  is_closed = true;
  slots = [];
  route_owners = [];
  stopped = r.stopped ++ keys r.slots;
}

-- The slot of a route, for an unsubscribe.
unfoldable pub owner : Text → Registry → Err ⊎ Option ℕ
owner key r = if r.is_closed then inl realtime_closed else inr (lookup key r.route_owners)

unfoldable pub first_conn : Registry → Option ℕ
first_conn r = elim r.slots [ [] ↦ none | (id, slot) ∷ slots ↦ some id ]

-- What a goroutine does while it holds the mutex. A release may come from a slot that has lost the route.
pub data Move : Type 0 where
  starts shuts : Move
  acquires : Text → Move
  releases : Text → ℕ → Move
  fires : ℕ → ℕ → Move

abbrev pub registry_of : Registry → Option (Registry × (Err ⊎ (ℕ × Bool))) → Registry
registry_of r none = r
registry_of r (some (r', result)) = r'

unfoldable pub move : Limits → Factory → Move → Registry → Registry
move lim factory starts r = start factory r
move lim factory shuts r = shutdown r
move lim factory (acquires key) r = registry_of r (acquire lim factory key r)
move lim factory (releases key id) r = release lim key id r
move lim factory (fires id timer) r = close_idle_slot id timer r

unfoldable pub moves : Limits → Factory → List Move → Registry → Registry
unfolding move
moves lim factory [] r = r
moves lim factory (m ∷ ms) r = moves lim factory ms (move lim factory m r)
