-- ===== src/Ls/Managing.antt =====
-- Runs of internal/adapter/broker/ls/api/ws/registry.go.
use custom_hts_legacy.Prelude.{
  ℕ, ◌+◌, ◌<◌, ◌≡◌, refl, sym, ◌∙◌, ap, subst, true, false, ◌||◌, not, Option, none, some, List, [],
  ◌∷◌, ◌++◌, arith, ltb, nat_beq, nat_beq_iff, nat_eq, inl, inr, length, Bool-cases, Option-cases,
  is_some, if_true, if_false,
}
use custom_hts_legacy.Prelude.Texts.{Text, text_eq}
use custom_hts_legacy.Prelude.Int.{leb_ℤ, pos}
use custom_hts_legacy.Prelude.Maps.{
  lookup, insert, delete, keys, lookup-insert, lookup-insert_self, insert-IsMap, length-insert_le,
}
use custom_hts_legacy.Ls.Routes.{Err}
use custom_hts_legacy.Ls.Conns.{
  Limits, Slot, new_slot, Registry, created_slot, start_slot, start_slots, place, placed_new,
  mark_idle, drop_route, owns, release, is_timer, close_idle_slot, shutdown,
}
use custom_hts_legacy.Ls.Placing.{
  has_route, IsSlot, IsPlaced, start_found-IsPlaced, place_found-IsPlaced, drop_found-IsPlaced,
  idle_found-IsPlaced, remove_found-IsPlaced, closed_open, still_open, no_routes,
}

pub start_slot-IsPlaced :
    (lim : Limits) (id : ℕ) (r : Registry) → IsPlaced lim r → IsPlaced lim (start_slot id r)
unfolding start_slot
start_slot-IsPlaced lim id r p = elim (Option-cases (lookup id r.slots)) [
  | inl gone ↦ rw (start_slot, gone) p
  | inr (slot, found) ↦ elim (Bool-cases (not r.is_started || r.is_closed || slot.is_running)) [
    | inl stays ↦ rw (start_slot, found, stays) p
    | inr starts ↦ rw (start_slot, found, starts) (start_found-IsPlaced lim r p id slot found)
  ]
]

pub start_slots-IsPlaced :
    (lim : Limits) (ids : List ℕ) (r : Registry) → IsPlaced lim r → IsPlaced lim (start_slots ids r)
unfolding start_slots
start_slots-IsPlaced lim [] r p = p
start_slots-IsPlaced lim (id ∷ ids) r p =
    start_slots-IsPlaced lim ids (start_slot id r) (start_slot-IsPlaced lim id r p)

-- A new slot is empty.
module _ (lim : Limits) (r : Registry) (p : IsPlaced lim r) where
  fresh_id : lookup r.next_id r.slots ≡ none
  fresh_id = elim (Option-cases (lookup r.next_id r.slots)) [
    | inl gone ↦ gone
    | inr (slot, found) ↦ absurd (omega (arith, p.numbered r.next_id (ap is_some found)))
  ]

  abbrev with_new : Registry
  with_new = record r { next_id = r.next_id + 1; slots = insert r.next_id new_slot r.slots }

  new-IsPlaced : r.is_closed ≡ false → length r.slots < lim.max_conn_slots → IsPlaced lim with_new
  new-IsPlaced running room =
      let look = λ (j : ℕ). lookup-insert r.next_id j new_slot r.slots in
      record {
        agrees = λ key j. ground (
          arith,
          look j,
          p.agrees key j,
          fresh_id,
          no_routes [] key refl,
          nat_beq_iff r.next_id j,
        );
        bounded = λ j. elim (Bool-cases (nat_beq r.next_id j)) [
          | inl same ↦
              let there : lookup j with_new.slots ≡ some new_slot = look j ∙ rw same refl in
              subst (IsSlot lim) (sym there) (omega arith, inl refl)
          | inr apart ↦
              let there : lookup j with_new.slots ≡ lookup j r.slots = look j ∙ rw apart refl in
              subst (IsSlot lim) (sym there) (p.bounded j)
        ];
        numbered = λ j there. ground (arith, look j, p.numbered j, nat_beq_iff r.next_id j);
        distinct = insert-IsMap r.next_id new_slot r.slots p.distinct;
        few = omega (arith, length-insert_le r.next_id new_slot r.slots, room);
        shut = λ c. absurd (closed_open (sym running ∙ c));
      }

  skipped-IsPlaced : IsPlaced lim (record r { next_id = r.next_id + 1 })
  skipped-IsPlaced = record {
    agrees = p.agrees;
    bounded = p.bounded;
    numbered = λ j there. omega (arith, p.numbered j there);
    distinct = p.distinct;
    few = p.few;
    shut = p.shut;
  }

  pub created-IsPlaced :
      (reply : Option Err)
      → r.is_closed ≡ false
      → length r.slots < lim.max_conn_slots
      → IsPlaced lim (created_slot r.next_id (record r { next_id = r.next_id + 1 }) reply).0
  created-IsPlaced none running room = new-IsPlaced running room
  created-IsPlaced (some e) running room = skipped-IsPlaced

  pub created_room :
      (reply : Option Err) (key : Text)
      → r.is_closed ≡ false
      → length r.slots < lim.max_conn_slots
      → 0 < lim.max_routes_per_slot
      → lookup key r.route_owners ≡ none
      → IsPlaced lim
          (placed_new key (created_slot r.next_id (record r { next_id = r.next_id + 1 }) reply)).0
  created_room none key running room positive unowned =
      start_slot-IsPlaced lim r.next_id (place key r.next_id with_new) (
        place_found-IsPlaced lim with_new (new-IsPlaced running room) r.next_id new_slot
          (lookup-insert_self r.next_id new_slot r.slots) key unowned positive)
  created_room (some e) key running room positive unowned = skipped-IsPlaced

mark_idle-IsPlaced :
    (lim : Limits) (id : ℕ) (r : Registry) → IsPlaced lim r → IsPlaced lim (mark_idle lim id r)
unfolding mark_idle
mark_idle-IsPlaced lim id r p = elim (Option-cases (lookup id r.slots)) [
  | inl gone ↦ rw (mark_idle, gone) p
  | inr (slot, found) ↦ elim (Bool-cases (ltb 0 (length slot.routes))) [
    | inl busy ↦ rw (mark_idle, found, busy) p
    | inr idle ↦
        let empty : length slot.routes ≡ 0 = ground arith in
        let running = still_open lim r p id slot found in
        elim (Bool-cases (leb_ℤ lim.idle_slot_ttl (pos 0))) [
          | inl at_once ↦
              rw (mark_idle, found, idle)
                (if_false (IsPlaced lim) r.is_closed _ _ running (
                  if_true (IsPlaced lim) (leb_ℤ lim.idle_slot_ttl (pos 0)) _ _ at_once
                    (remove_found-IsPlaced lim r p id slot found empty)))
          | inr later ↦
              rw (mark_idle, found, idle)
                (if_false (IsPlaced lim) r.is_closed _ _ running (
                  if_false (IsPlaced lim) (leb_ℤ lim.idle_slot_ttl (pos 0)) _ _ later
                    (idle_found-IsPlaced lim r p id slot found r.next_timer empty)))
        ]
  ]
]

owner_slot :
    (lim : Limits) (key : Text) (id : ℕ) (r : Registry)
    → IsPlaced lim r
    → owns (lookup key r.route_owners) id ≡ true
    → (slot : Slot) × (lookup id r.slots ≡ some slot)
owner_slot lim key id r p owned = elim (Option-cases (lookup id r.slots)) [
  | inr found ↦ found
  | inl gone ↦ absurd (closed_open (sym (p.agrees key id ∙ ap (has_route key) gone) ∙ owned))
]

pub release-IsPlaced :
    (lim : Limits) (key : Text) (id : ℕ) (r : Registry)
    → IsPlaced lim r
    → IsPlaced lim (release lim key id r)
unfolding release
release-IsPlaced lim key id r p = elim (Bool-cases (owns (lookup key r.route_owners) id)) [
  | inr stranger ↦ rw (release, stranger) p
  | inl owned ↦
      let (slot, found) = owner_slot lim key id r p owned in
      rw (release, owned)
        (mark_idle-IsPlaced lim id
          (drop_route key id (record r { route_owners = delete key r.route_owners }))
          (drop_found-IsPlaced lim r p id slot found key owned))
]

pub close_idle_slot-IsPlaced :
    (lim : Limits) (id timer : ℕ) (r : Registry)
    → IsPlaced lim r
    → IsPlaced lim (close_idle_slot id timer r)
unfolding close_idle_slot
close_idle_slot-IsPlaced lim id timer r p = elim (Option-cases (lookup id r.slots)) [
  | inl gone ↦ rw (close_idle_slot, gone) p
  | inr (slot, found) ↦
      elim (Bool-cases
        (r.is_closed || not (is_timer slot.idle_timer timer) || ltb 0 (length slot.routes))) [
          | inl stays ↦ rw (close_idle_slot, found, stays) p
          | inr goes ↦
              rw (close_idle_slot, found, goes)
                (remove_found-IsPlaced lim r p id slot found (ground arith))
        ]
]

pub emptied-IsPlaced :
    (lim : Limits) (r : Registry) (stopped : List ℕ)
    → IsPlaced lim (record r { is_closed = true; slots = []; route_owners = []; stopped = stopped })
unfolding lookup
emptied-IsPlaced lim r stopped = record {
  agrees = λ key id. refl;
  bounded = λ id. tt;
  numbered = λ id there. cc;
  distinct = tt;
  few = omega arith;
  shut = λ c. (refl, refl);
}

pub shutdown-IsPlaced : (lim : Limits) (r : Registry) → IsPlaced lim r → IsPlaced lim (shutdown r)
unfolding shutdown
shutdown-IsPlaced lim r p = elim (Bool-cases r.is_closed) [
  | inl closed ↦ if_true (IsPlaced lim) r.is_closed _ _ closed p
  | inr running ↦
      if_false (IsPlaced lim) r.is_closed _ _ running
        (emptied-IsPlaced lim r (r.stopped ++ keys r.slots))
]
