-- ===== src/Ls/Placing.antt =====
-- internal/adapter/broker/ls/api/ws/registry.go: a route has one slot, and the slots stay within the limits,
-- whatever the goroutines do with the registry, in any order.
use custom_hts_legacy.Prelude.{
  ℕ, ◌+◌, ◌≤◌, ◌<◌, ◌≡◌, refl, sym, ◌∙◌, ap, subst, Bool, true, false, Option, none, some, List, [],
  ◌∷◌, ◌++◌, arith, nat_beq, nat_beq_iff, nat_eq, if◌then◌else◌, ◌⊎◌, inl, inr, length, Bool-cases,
  is_some,
}
use custom_hts_legacy.Prelude.Texts.{Text, text_eq}
use custom_hts_legacy.Prelude.Maps.{
  lookup, insert, delete, IsMap, lookup-insert, lookup-delete, insert-IsMap, delete-IsMap,
  length-insert_le, length-insert_old, length-delete_le,
}
use custom_hts_legacy.Ls.Conns.{Limits, Slot, Registry, place, remove_slot, drop_route, owns}

abbrev pub has_route : Text → Option Slot → Bool
has_route key none = false
has_route key (some slot) = is_some (lookup key slot.routes)

-- A slot with routes has no timer.
abbrev pub IsSlot : Limits → Option Slot → Type 0
IsSlot lim none = Unit
IsSlot lim (some slot) =
    (length slot.routes ≤ lim.max_routes_per_slot)
    × ((slot.idle_timer ≡ none) ⊎ (length slot.routes ≡ 0))

pub record IsPlaced (lim : Limits) (r : Registry) : Type 0 where
  pub agrees :
      (key : Text) (id : ℕ)
      → owns (lookup key r.route_owners) id ≡ has_route key (lookup id r.slots)
  pub bounded : (id : ℕ) → IsSlot lim (lookup id r.slots)
  pub numbered : (id : ℕ) → is_some (lookup id r.slots) ≡ true → id < r.next_id
  pub distinct : IsMap r.slots
  pub few : length r.slots ≤ lim.max_conn_slots
  pub shut : r.is_closed ≡ true → (r.slots ≡ []) × (r.route_owners ≡ [])

pub no_routes :
    (routes : List (Text × Unit {0})) (key : Text) → length routes ≡ 0 → lookup key routes ≡ none
unfolding lookup
no_routes [] key e = refl
no_routes (x ∷ routes) key e = absurd (omega arith)

pub closed_open : false ≡ true → ⊥
closed_open e = cc

pub empty_lookup :
    {V : Type 0} (m : List (ℕ × V)) (id : ℕ) (v : V) → m ≡ [] → lookup id m ≡ some v → ⊥
unfolding lookup
empty_lookup [] id v e found = cc
empty_lookup (x ∷ m) id v e found = cc

module _ (lim : Limits) (r : Registry) (p : IsPlaced lim r) (id : ℕ) (old : Slot)
    (found : lookup id r.slots ≡ some old) where
  pub still_open : r.is_closed ≡ false
  still_open = elim (Bool-cases r.is_closed) [
    | inr open_still ↦ open_still
    | inl closed ↦ absurd (empty_lookup r.slots id old (p.shut closed).0 found)
  ]

  pub old-IsSlot : IsSlot lim (some old)
  old-IsSlot = subst (IsSlot lim) found (p.bounded id)

  pub old_routes :
      (key : Text) → owns (lookup key r.route_owners) id ≡ is_some (lookup key old.routes)
  old_routes key = p.agrees key id ∙ ap (has_route key) found

  -- A write of the slot, with the owners that fit it.
  pub put-IsPlaced :
      (new : Slot) (r' : Registry)
      → r'.slots ≡ insert id new r.slots
      → r'.next_id ≡ r.next_id
      → r'.is_closed ≡ r.is_closed
      → IsSlot lim (some new)
      → ((key : Text) (j : ℕ)
          → owns (lookup key r'.route_owners) j ≡ (
              if nat_beq id j
              then is_some (lookup key new.routes)
              else owns (lookup key r.route_owners) j))
      → IsPlaced lim r'
  put-IsPlaced new r' slots next closed fits owners =
      let look : (j : ℕ)
          → lookup j r'.slots ≡ (if nat_beq id j then some new else lookup j r.slots) =
        λ j. ap (lookup j) slots ∙ lookup-insert id j new r.slots in
      record {
        agrees = λ key j. ground (arith, owners key j, look j, p.agrees key j);
        bounded = λ j. elim (Bool-cases (nat_beq id j)) [
          | inl same ↦
              let there : lookup j r'.slots ≡ some new = look j ∙ rw same refl in
              subst (IsSlot lim) (sym there) fits
          | inr apart ↦
              let there : lookup j r'.slots ≡ lookup j r.slots = look j ∙ rw apart refl in
              subst (IsSlot lim) (sym there) (p.bounded j)
        ];
        numbered = λ j there.
            ground (arith, look j, nat_beq_iff id j, p.numbered j, p.numbered id, found, next);
        distinct = subst IsMap (sym slots) (insert-IsMap id new r.slots p.distinct);
        few = omega (arith, ap length slots, length-insert_old id new r.slots found, p.few);
        shut = λ c. absurd (closed_open (sym still_open ∙ sym closed ∙ c));
      }

  pub start_found-IsPlaced : IsPlaced lim (record r {
    slots = insert id (record old { is_running = true }) r.slots;
    launched = r.launched ++ (id ∷ []);
  })
  start_found-IsPlaced =
      put-IsPlaced (record old { is_running = true })
        (record r {
          slots = insert id (record old { is_running = true }) r.slots;
          launched = r.launched ++ (id ∷ []);
        })
        refl refl refl old-IsSlot (λ key j. ground (arith, old_routes key, nat_beq_iff id j))

  -- A route that no slot has goes to this one, which is not full.
  pub place_found-IsPlaced :
      (key : Text)
      → lookup key r.route_owners ≡ none
      → length old.routes < lim.max_routes_per_slot
      → IsPlaced lim (place key id r)
  unfolding place
  place_found-IsPlaced key unowned room =
      let new : Slot = record old { idle_timer = none; routes = insert key tt old.routes } in
      rw (place, found)
        (put-IsPlaced new
          (record r { slots = insert id new r.slots; route_owners = insert key id r.route_owners })
          refl refl refl (omega (arith, length-insert_le key tt old.routes), inl refl)
          (λ k j. ground (
            arith,
            old_routes k,
            old_routes key,
            lookup-insert key k id r.route_owners,
            lookup-insert key k tt old.routes,
            nat_beq_iff id j,
            text_eq.beq_iff key k,
          )))

  pub drop_found-IsPlaced :
      (key : Text)
      → owns (lookup key r.route_owners) id ≡ true
      → IsPlaced lim (drop_route key id (record r { route_owners = delete key r.route_owners }))
  drop_found-IsPlaced key owned =
      let new : Slot = record old { routes = delete key old.routes } in
      rw (drop_route, found)
        (put-IsPlaced new
          (record r { slots = insert id new r.slots; route_owners = delete key r.route_owners })
          refl refl refl
          (
            omega (arith, length-delete_le key old.routes, old-IsSlot.0),
            elim old-IsSlot.1 [
              | inl no_timer ↦ inl no_timer
              | inr empty ↦ inr (omega (arith, length-delete_le key old.routes))
            ],
          )
          (λ k j. ground (
            arith,
            old_routes k,
            lookup-delete key k r.route_owners,
            lookup-delete key k old.routes,
            nat_beq_iff id j,
            text_eq.beq_iff key k,
          )))

  pub idle_found-IsPlaced :
      (timer : ℕ)
      → length old.routes ≡ 0
      → IsPlaced lim (record r {
        slots = insert id (record old { idle_timer = some timer }) r.slots;
        next_timer = timer + 1;
      })
  idle_found-IsPlaced timer empty =
      put-IsPlaced (record old { idle_timer = some timer })
        (record r {
          slots = insert id (record old { idle_timer = some timer }) r.slots;
          next_timer = timer + 1;
        })
        refl refl refl (old-IsSlot.0, inr empty)
        (λ key j. ground (arith, old_routes key, nat_beq_iff id j))

  -- An empty slot leaves.
  pub remove_found-IsPlaced : length old.routes ≡ 0 → IsPlaced lim (remove_slot id r)
  remove_found-IsPlaced empty =
      let look = λ (j : ℕ). lookup-delete id j r.slots in
      record {
        agrees = λ key j. ground (
          arith,
          look j,
          p.agrees key j,
          old_routes key,
          no_routes old.routes key empty,
          nat_beq_iff id j,
        );
        bounded = λ j. elim (Bool-cases (nat_beq id j)) [
          | inl same ↦
              let there : lookup j (delete id r.slots) ≡ none = look j ∙ rw same refl in
              subst (IsSlot lim) (sym there) tt
          | inr apart ↦
              let there : lookup j (delete id r.slots) ≡ lookup j r.slots =
                look j ∙ rw apart refl in
              subst (IsSlot lim) (sym there) (p.bounded j)
        ];
        numbered = λ j there. ground (arith, look j, p.numbered j);
        distinct = delete-IsMap id r.slots p.distinct;
        few = omega (arith, length-delete_le id r.slots, p.few);
        shut = λ c. absurd (closed_open (sym still_open ∙ c));
      }
