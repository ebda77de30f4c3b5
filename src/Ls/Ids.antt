-- ===== src/Ls/Ids.antt =====
-- The identifiers of a route's subscribers in internal/adapter/broker/ls/client, and a table of routes after one
-- of its routes has changed.
use custom_hts_legacy.Prelude.{
  ℕ, ◌+◌, ◌≡◌, refl, true, false, ◌&&◌, ◌||◌, not, List, [], ◌∷◌, ◌++◌, arith, nat_beq, nat_beq_iff,
  ◌==◌, nat_eq, length, inl, inr, Bool-cases,
}
use custom_hts_legacy.Prelude.Texts.{Text, text_eq}
use custom_hts_legacy.Prelude.Maps.{lookup, lookup-insert, lookup-delete}
use custom_hts_legacy.Ls.Fanout.{Route, has_id, remove_id, without}
use custom_hts_legacy.Ls.Serving.{Distinct}

pub has_id-remove :
    (id j : ℕ) (ids : List ℕ) → has_id j (remove_id id ids) ≡ (has_id j ids && not (nat_beq j id))
has_id-remove id j [] = refl
has_id-remove id j (i ∷ ids) =
    ground (arith, has_id-remove id j ids, nat_beq_iff i id, nat_beq_iff i j, nat_beq_iff j id)

pub Distinct-remove : (id : ℕ) (ids : List ℕ) → Distinct ids → Distinct (remove_id id ids)
Distinct-remove id [] d = tt
Distinct-remove id (i ∷ ids) (fresh, d) =
    ground (arith, Distinct-remove id ids d, has_id-remove id i ids)

remove_absent : (id : ℕ) (ids : List ℕ) → has_id id ids ≡ false → remove_id id ids ≡ ids
remove_absent id [] h = refl
remove_absent id (i ∷ ids) h = ground (arith, remove_absent id ids)

pub length-remove :
    (id : ℕ) (ids : List ℕ)
    → has_id id ids ≡ true
    → Distinct ids
    → length (remove_id id ids) + 1 ≡ length ids
length-remove id [] m d = cc
length-remove id (i ∷ ids) m (fresh, d) = elim (Bool-cases (nat_beq i id)) [
  | inl same ↦ ground (arith, nat_beq_iff i id, remove_absent id ids)
  | inr other ↦ ground (arith, length-remove id ids)
]

pub has_id-append :
    (j id : ℕ) (ids : List ℕ) → has_id j (ids ++ (id ∷ [])) ≡ (has_id j ids || nat_beq id j)
has_id-append j id [] = ground arith
has_id-append j id (i ∷ ids) = ground (arith, has_id-append j id ids)

pub Distinct-append :
    (id : ℕ) (ids : List ℕ) → has_id id ids ≡ false → Distinct ids → Distinct (ids ++ (id ∷ []))
Distinct-append id [] h d = (refl, tt)
Distinct-append id (i ∷ ids) h (fresh, d) =
    ground
      (arith, has_id-append i id ids, nat_beq_iff i id, nat_beq_iff id i, Distinct-append id ids)

pub without_others :
    (key y : Text) (route : Route) (id : ℕ) (table : List (Text × Route))
    → (y == key) ≡ false
    → lookup y (without key route id table) ≡ lookup y table
without_others key y route id table other = ground (
  arith,
  lookup-delete key y table,
  text_eq.beq_iff key y,
  text_eq.beq_iff y key,
  lookup-insert key y (record route { subscribers = remove_id id route.subscribers }) table,
)
