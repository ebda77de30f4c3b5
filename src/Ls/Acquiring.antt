-- ===== src/Ls/Acquiring.antt =====
-- `acquire` of internal/adapter/broker/ls/api/ws/registry.go, and what holds of every registry.
use custom_hts_legacy.Prelude.{
  ℕ, ◌+◌, ◌≡◌, refl, sym, ◌∙◌, ap, subst, Bool, true, false, ◌||◌, Option, none, some, List, [],
  ◌∷◌, arith, nat_beq_iff, nat_eq, ◌⊎◌, inl, inr, length, Bool-cases, Option-cases, Elem, if_true,
  if_false,
}
use custom_hts_legacy.Prelude.Texts.{Text, text_eq}
use custom_hts_legacy.Prelude.Maps.{lookup, insert, keys, IsMap, lookup-insert_self}
use custom_hts_legacy.Ls.Routes.{Err, realtime_closed, connection_limit}
use custom_hts_legacy.Ls.Conns.{
  Dependencies, normalize_dependencies, Limits, Slot, new_slot, Registry, new_conn_registry, Choice,
  reuse, create, full, Factory, created_slot, create_slot, start_slot, with_primary, start, place,
  placed_new, acquire_choice, acquire, Move, starts, shuts, acquires, releases, fires, move, moves,
  registry_of,
}
use custom_hts_legacy.Ls.Choosing.{IsEven, normalize_dependencies-fits, normalized_select-IsEven}
use custom_hts_legacy.Ls.Placing.{IsPlaced, place_found-IsPlaced}
use custom_hts_legacy.Ls.Managing.{
  start_slots-IsPlaced, release-IsPlaced, close_idle_slot-IsPlaced, shutdown-IsPlaced,
  created-IsPlaced, created_room,
}

-- What `acquire` answers.
abbrev pub IsAnswer : Text → Registry → Registry → Err ⊎ (ℕ × Bool) → Type 0
IsAnswer key r r' (inl e) =
    (lookup key r'.route_owners ≡ lookup key r.route_owners)
    × ((r.is_closed ≡ true) ⊎ (lookup key r.route_owners ≡ none))
IsAnswer key r r' (inr (id, true)) = (lookup key r.route_owners ≡ some id) × (r' ≡ r)
IsAnswer key r r' (inr (id, false)) =
    (lookup key r.route_owners ≡ none) × (lookup key r'.route_owners ≡ some id)

pair_lookup :
    (slots : List (ℕ × Slot)) (id : ℕ) (slot : Slot)
    → IsMap slots
    → Elem (id, slot) slots
    → lookup id slots ≡ some slot
unfolding lookup
pair_lookup [] id slot d m = absurd m
pair_lookup ((j, s) ∷ slots) id slot (fresh, d) (inl e) = ground (arith, nat_beq_iff j id)
pair_lookup ((j, s) ∷ slots) id slot (fresh, d) (inr m) =
    let later = pair_lookup slots id slot d m in ground (arith, nat_beq_iff j id)

place_owners :
    (key : Text) (id : ℕ) (slot : Slot) (r : Registry)
    → lookup id r.slots ≡ some slot
    → lookup key (place key id r).route_owners ≡ some id
unfolding place
place_owners key id slot r found = rw (place, found) (lookup-insert_self key id r.route_owners)

start_slot-owners : (id : ℕ) (r : Registry) → (start_slot id r).route_owners ≡ r.route_owners
unfolding start_slot
start_slot-owners id r = ground arith

module _ (deps : Dependencies) (factory : Factory) (key : Text) (r : Registry)
    (p : IsPlaced (normalize_dependencies deps) r) where
  abbrev lim : Limits
  lim = normalize_dependencies deps

  placed-IsAnswer :
      (reply : Option Err)
      → lookup key r.route_owners ≡ none
      → let o =
          placed_new key (created_slot r.next_id (record r { next_id = r.next_id + 1 }) reply) in
        IsAnswer key r o.0 o.1
  placed-IsAnswer none unowned =
      let grown : Registry = record r {
        next_id = r.next_id + 1;
        slots = insert r.next_id new_slot r.slots;
      } in
      (
        unowned,
        ap (lookup key) (start_slot-owners r.next_id (place key r.next_id grown))
            ∙ place_owners key r.next_id new_slot grown
                (lookup-insert_self r.next_id new_slot r.slots),
      )
  placed-IsAnswer (some e) unowned = (refl, inr unowned)

  choice_outcome :
      (c : Choice)
      → r.is_closed ≡ false
      → lookup key r.route_owners ≡ none
      → IsEven lim r.slots c
      → (r' : Registry) × (result : Err ⊎ (ℕ × Bool)) × (acquire_choice factory key (some c) r
          ≡ some (r', result))
        × IsPlaced lim r'
        × IsAnswer key r r' result
  unfolding create_slot
  choice_outcome (reuse id) running unowned (slot, m, room, _) =
      let found = pair_lookup r.slots id slot p.distinct m in
      (
        place key id r,
        inr (id, false),
        refl,
        place_found-IsPlaced lim r p id slot found key unowned room,
        (unowned, place_owners key id slot r found),
      )
  choice_outcome create running unowned (room, _) =
      let (positive, fits, _) = normalize_dependencies-fits deps in
      let o =
        placed_new key
          (created_slot r.next_id (record r { next_id = r.next_id + 1 }) (factory r.next_id)) in
      (
        o.0,
        o.1,
        refl,
        created_room lim r p (factory r.next_id) key running room (omega arith) unowned,
        placed-IsAnswer (factory r.next_id) unowned,
      )
  choice_outcome full running unowned _ = (r, inl connection_limit, refl, p, (refl, inr unowned))

  -- `acquire` ends, and keeps what holds of the registry. A route that has a slot keeps it, and nothing changes; a
  -- route that has none gets the slot of the answer, or, with an error, still has none; a closed registry refuses.
  pub acquire_outcome :
      (r' : Registry) × (result : Err ⊎ (ℕ × Bool)) × (acquire lim factory key r
        ≡ some (r', result))
      × IsPlaced lim r'
      × IsAnswer key r r' result
  unfolding acquire
  acquire_outcome = elim (Bool-cases r.is_closed) [
    | inl closed ↦ (r, inl realtime_closed, simp (closed), p, (refl, inl closed))
    | inr running ↦ elim (Option-cases (lookup key r.route_owners)) [
      | inr (id, owned) ↦ (r, inr (id, true), simp (running, owned), p, (owned, refl))
      | inl unowned ↦
          let (c, chosen, even) = normalized_select-IsEven deps r.slots in
          let (r', result, eq, placed, answer) = choice_outcome c running unowned even in
          (r', result, simp (running, unowned, chosen) eq, placed, answer)
    ]
  ]

module _ (deps : Dependencies) (factory : Factory) where
  started-IsPlaced :
      (r : Registry)
      → IsPlaced (normalize_dependencies deps) r
      → IsPlaced (normalize_dependencies deps) (record r { is_started = true })
  started-IsPlaced r p = record {
    agrees = p.agrees;
    bounded = p.bounded;
    numbered = p.numbered;
    distinct = p.distinct;
    few = p.few;
    shut = p.shut;
  }

  primary-IsPlaced :
      (slots : List (ℕ × Slot)) (r : Registry)
      → IsPlaced (normalize_dependencies deps) r
      → r.slots ≡ slots
      → r.is_closed ≡ false
      → IsPlaced (normalize_dependencies deps) (with_primary factory slots r)
  unfolding create_slot
  primary-IsPlaced (s ∷ slots) r p same running = p
  primary-IsPlaced [] r p same running =
      let (_, _, some_slots) = normalize_dependencies-fits deps in
      created-IsPlaced (normalize_dependencies deps) r p (factory r.next_id) running
        (omega (arith, ap length same, some_slots))

  start-IsPlaced :
      (r : Registry)
      → IsPlaced (normalize_dependencies deps) r
      → IsPlaced (normalize_dependencies deps) (start factory r)
  unfolding start
  start-IsPlaced r p = elim (Bool-cases (r.is_started || r.is_closed)) [
    | inl stays ↦
        if_true (IsPlaced (normalize_dependencies deps)) (r.is_started || r.is_closed) _ _ stays p
    | inr starting ↦
        let r' : Registry = record r { is_started = true } in
        let primary = with_primary factory r.slots r' in
        if_false (IsPlaced (normalize_dependencies deps)) (r.is_started || r.is_closed) _ _ starting
          (start_slots-IsPlaced (normalize_dependencies deps) (keys primary.slots) primary
            (primary-IsPlaced r.slots r' (started-IsPlaced r p) refl (ground arith)))
  ]

  move-IsPlaced :
      (m : Move) (r : Registry)
      → IsPlaced (normalize_dependencies deps) r
      → IsPlaced (normalize_dependencies deps) (move (normalize_dependencies deps) factory m r)
  unfolding move
  move-IsPlaced starts r p = start-IsPlaced r p
  move-IsPlaced shuts r p = shutdown-IsPlaced (normalize_dependencies deps) r p
  move-IsPlaced (acquires key) r p =
      let (r', result, eq, placed, _) = acquire_outcome deps factory key r p in
      subst (λ o. IsPlaced (normalize_dependencies deps) (registry_of r o)) (sym eq) placed
  move-IsPlaced (releases key id) r p = release-IsPlaced (normalize_dependencies deps) key id r p
  move-IsPlaced (fires id timer) r p =
      close_idle_slot-IsPlaced (normalize_dependencies deps) id timer r p

  moves_from-IsPlaced :
      (ms : List Move) (r : Registry)
      → IsPlaced (normalize_dependencies deps) r
      → IsPlaced (normalize_dependencies deps) (moves (normalize_dependencies deps) factory ms r)
  unfolding moves
  moves_from-IsPlaced [] r p = p
  moves_from-IsPlaced (m ∷ ms) r p =
      moves_from-IsPlaced ms (move (normalize_dependencies deps) factory m r) (move-IsPlaced m r p)

new_registry-IsPlaced : (lim : Limits) → IsPlaced lim new_conn_registry
unfolding new_conn_registry lookup
new_registry-IsPlaced lim = record {
  agrees = λ key id. refl;
  bounded = λ id. tt;
  numbered = λ id there. cc;
  distinct = tt;
  few = omega arith;
  shut = λ c. (refl, refl);
}

-- A registry with the limits that any dependencies come down to goes through any starts, acquisitions, releases,
-- timers and shutdowns, in any order and from any goroutine. A slot has a route exactly if it is the route's owner;
-- there are no more slots than may be, none has more routes than may be, and a slot with routes waits for no
-- timer that would close it; a closed registry has neither slots nor owners.
pub moves-IsPlaced :
    (deps : Dependencies) (factory : Factory) (ms : List Move)
    → let lim = normalize_dependencies deps in IsPlaced lim (moves lim factory ms new_conn_registry)
moves-IsPlaced deps factory ms =
    moves_from-IsPlaced deps factory ms new_conn_registry
      (new_registry-IsPlaced (normalize_dependencies deps))
