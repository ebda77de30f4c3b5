-- ===== src/Ls/Choosing.antt =====
-- `selectSlotLocked` of internal/adapter/broker/ls/api/ws/registry.go: it ends, and fills the slots evenly.
use custom_hts_legacy.Prelude.{
  ℕ, zero, suc, ◌+◌, ◌≤◌, ◌<◌, ◌≡◌, refl, ◌&&◌, none, some, List, [], ◌∷◌, arith, ltb, nat_eq, inl,
  inr, length, All, All-imp, Elem, Bool-cases, Option-cases,
}
use custom_hts_legacy.Ls.Conns.{
  Dependencies, Limits, normalize_dependencies, Slot, Choice, reuse, create, full, first_below,
  choose, select_slot,
}

abbrev pub count_of : ℕ × Slot → ℕ
count_of s = length s.1.routes

abbrev pub AllHave : ℕ → List (ℕ × Slot) → Type 0
AllHave n = All (λ s. n ≤ count_of s)

-- What the choice promises.
abbrev pub IsEven : Limits → List (ℕ × Slot) → Choice → Type 0
IsEven lim slots (reuse id) =
    (slot : Slot) × Elem (id, slot) slots
    × (length slot.routes < lim.max_routes_per_slot)
    × All (λ s. length slot.routes < count_of s + lim.route_fill_step) slots
IsEven lim slots create = (length slots < lim.max_conn_slots) × AllHave lim.route_fill_step slots
IsEven lim slots full = (lim.max_conn_slots ≤ length slots) × AllHave lim.max_routes_per_slot slots

first_below-some :
    (ceiling most : ℕ) (slots : List (ℕ × Slot)) (id : ℕ)
    → first_below ceiling most slots ≡ some id
    → (slot : Slot) × Elem (id, slot) slots
      × (length slot.routes < ceiling)
      × (length slot.routes < most)
unfolding first_below
first_below-some ceiling most [] id h = cc
first_below-some ceiling most ((j, slot) ∷ slots) id h =
    elim (Bool-cases (ltb (length slot.routes) ceiling && ltb (length slot.routes) most)) [
      | inl here ↦ (slot, inl (ground arith), ground arith, ground arith)
      | inr there ↦
          let (found, m, below, room) = first_below-some ceiling most slots id (rw there at h) in
          (found, inr m, below, room)
    ]

first_below-none :
    (ceiling most : ℕ) (slots : List (ℕ × Slot))
    → ceiling ≤ most
    → first_below ceiling most slots ≡ none
    → AllHave ceiling slots
unfolding first_below
first_below-none ceiling most [] le h = tt
first_below-none ceiling most ((j, slot) ∷ slots) le h =
    ground (arith, first_below-none ceiling most slots le)

-- Each round takes the floor up, so that the fuel lasts until the floor is at the most.
choose-IsEven :
    (fuel ceiling floor : ℕ) (lim : Limits) (slots : List (ℕ × Slot))
    → 0 < lim.route_fill_step
    → lim.route_fill_step ≤ lim.max_routes_per_slot
    → floor ≤ lim.max_routes_per_slot
    → lim.max_routes_per_slot < floor + fuel
    → ceiling ≡ floor + lim.route_fill_step
    → AllHave floor slots
    → (c : Choice) × (choose fuel ceiling lim slots ≡ some c) × IsEven lim slots c
unfolding choose
choose-IsEven zero ceiling floor lim slots positive fits low fuelled up above = absurd (omega arith)
choose-IsEven (suc fuel) ceiling floor lim slots positive fits low fuelled up above =
    let most = lim.max_routes_per_slot in
    elim (Bool-cases (ltb ceiling most)) [
      | inl more ↦ elim (Option-cases (first_below ceiling most slots)) [
        | inr (id, found) ↦
            let (slot, m, below, room) = first_below-some ceiling most slots id found in
            (
              reuse id,
              rw (more, found) refl,
              (slot, m, room, All-imp (λ s. floor ≤ count_of s) slots (λ s le. omega arith) above),
            )
        | inl nothing ↦
            let higher = first_below-none ceiling most slots (ground arith) nothing in
            elim (Bool-cases (ltb (length slots) lim.max_conn_slots)) [
              | inl room ↦ (
                create,
                rw (more, nothing, room) refl,
                (
                  ground arith,
                  All-imp (λ s. ceiling ≤ count_of s) slots (λ s le. omega arith) higher,
                ),
              )
              | inr packed ↦
                  rw (more, nothing, packed)
                    (choose-IsEven fuel (ceiling + lim.route_fill_step) ceiling lim slots positive
                      fits (ground arith) (omega arith) refl higher)
            ]
      ]
      | inr last ↦
          let reached : most ≤ ceiling = ground arith in
          elim (Option-cases (first_below most most slots)) [
            | inr (id, found) ↦
                let (slot, m, below, room) = first_below-some most most slots id found in
                (
                  reuse id,
                  rw (last, found) refl,
                  (
                    slot,
                    m,
                    room,
                    All-imp (λ s. floor ≤ count_of s) slots (λ s le. omega arith) above,
                  ),
                )
            | inl nothing ↦
                let filled = first_below-none most most slots (omega arith) nothing in
                elim (Bool-cases (ltb (length slots) lim.max_conn_slots)) [
                  | inl room ↦ (
                    create,
                    rw (last, nothing, room) refl,
                    (
                      ground arith,
                      All-imp (λ s. most ≤ count_of s) slots (λ s le. omega arith) filled,
                    ),
                  )
                  | inr packed ↦ (full, rw (last, nothing, packed) refl, (ground arith, filled))
                ]
          ]
    ]

AllHave-none : (slots : List (ℕ × Slot)) → AllHave 0 slots
AllHave-none [] = tt
AllHave-none (s ∷ slots) = (omega arith, AllHave-none slots)

-- For any limits that are such as `normalize_dependencies` makes them.
pub select_slot-IsEven :
    (lim : Limits) (slots : List (ℕ × Slot))
    → 0 < lim.route_fill_step
    → lim.route_fill_step ≤ lim.max_routes_per_slot
    → (c : Choice) × (select_slot lim slots ≡ some c) × IsEven lim slots c
unfolding select_slot
select_slot-IsEven lim slots positive fits =
    choose-IsEven (lim.max_routes_per_slot + 1) lim.route_fill_step 0 lim slots positive fits
      (omega arith) (omega arith) (omega arith) (AllHave-none slots)

-- The limits of every registry are such.
pub normalize_dependencies-fits :
    (deps : Dependencies)
    → let lim = normalize_dependencies deps in
      (0 < lim.route_fill_step)
      × (lim.route_fill_step ≤ lim.max_routes_per_slot)
      × (0 < lim.max_conn_slots)
unfolding normalize_dependencies
normalize_dependencies-fits deps = ground arith

-- With the limits that any dependencies come down to, the choice ends. A slot is taken that is not full and has
-- less than a fill step more routes than any other; a new one is made only if there may be one more and each has
-- a fill step of routes; there is no slot only if there may be no more and each is full.
pub normalized_select-IsEven :
    (deps : Dependencies) (slots : List (ℕ × Slot))
    → let lim = normalize_dependencies deps in
      (c : Choice) × (select_slot lim slots ≡ some c) × IsEven lim slots c
normalized_select-IsEven deps slots =
    let (positive, fits, _) = normalize_dependencies-fits deps in
    select_slot-IsEven (normalize_dependencies deps) slots positive fits
