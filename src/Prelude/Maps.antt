-- ===== src/Prelude/Maps.antt =====
-- Go maps as association lists. A key is stored once, a write to a present key is in place, and the
-- order of the list stands for the order in which a `range` happens to visit the map.
use Prim.Native.Nat.{suc, ◌+◌, ◌≤◌}
use mathlib.Core.Path.{◌≡◌, refl, ap, subst}
use mathlib.Core.Logic.{inl, inr}
use mathlib.Core.Bool.{false}
use mathlib.Core.Option.{Option, none, some}
use mathlib.Core.List.{List, [], ◌∷◌}
use native.Mathlib.Omega.{arith}
use custom_hts_legacy.Prelude.Tests.{Eq, ◌==◌, if◌then◌else◌, Bool-cases, ==-self, eq_of_==}
use custom_hts_legacy.Prelude.Lists.{Elem, length}

module _ {K V : Type 0} ⦃e : Eq K⦄ where
  unfoldable pub lookup : K → List (K × V) → Option V
  lookup k [] = none
  lookup k ((j, v) ∷ m) = if j == k then some v else lookup k m

  unfoldable pub insert : K → V → List (K × V) → List (K × V)
  insert k v [] = (k, v) ∷ []
  insert k v ((j, w) ∷ m) = if j == k then (k, v) ∷ m else (j, w) ∷ insert k v m

  unfoldable pub delete : K → List (K × V) → List (K × V)
  delete k [] = []
  delete k ((j, w) ∷ m) = let rest = delete k m in if j == k then rest else (j, w) ∷ rest

  -- The keys in the order of a `range`.
  abbrev pub keys : List (K × V) → List K
  keys [] = []
  keys ((j, w) ∷ m) = j ∷ keys m

module _ {K V : Type 0} ⦃e : Eq K⦄ where
  pub lookup-insert :
      (key j : K) (new : V) (table : List (K × V))
      → lookup j (insert key new table) ≡ (if key == j then some new else lookup j table)
  unfolding lookup insert
  lookup-insert key j new [] = refl
  lookup-insert key j new ((i, old) ∷ rest) =
      ground (arith, lookup-insert key j new rest, e.beq_iff i j, e.beq_iff i key, e.beq_iff key j)

  pub lookup-delete :
      (k j : K) (m : List (K × V)) → lookup j (delete k m) ≡ (if k == j then none else lookup j m)
  unfolding lookup delete
  lookup-delete k j [] = ground arith
  lookup-delete k j ((i, w) ∷ m) =
      ground (arith, e.beq_iff k j, e.beq_iff i k, e.beq_iff i j, lookup-delete k j m)

  pub lookup-insert_self : (k : K) (v : V) (m : List (K × V)) → lookup k (insert k v m) ≡ some v
  lookup-insert_self k v m = ground (arith, lookup-insert k k v m, ==-self k)

  pub lookup-insert_ne :
      (k j : K) (v : V) (m : List (K × V)) → (k == j) ≡ false → lookup j (insert k v m) ≡ lookup j m
  lookup-insert_ne k j v m h = ground (arith, lookup-insert k j v m)

  pub lookup-delete_self : (k : K) (m : List (K × V)) → lookup k (delete k m) ≡ none
  lookup-delete_self k m = ground (arith, lookup-delete k k m, ==-self k)

  pub lookup-delete_ne :
      (k j : K) (m : List (K × V)) → (k == j) ≡ false → lookup j (delete k m) ≡ lookup j m
  lookup-delete_ne k j m h = ground (arith, lookup-delete k j m)

  -- A key that is looked up is one of the keys, and the other way round.
  pub Elem-keys : (k : K) (m : List (K × V)) {v : V} → lookup k m ≡ some v → Elem k (keys m)
  unfolding lookup
  Elem-keys k [] h = cc
  Elem-keys k ((j, w) ∷ m) {v = v} h = elim (Bool-cases (j == k)) [
    | inl same ↦ inl (eq_of_== j k same)
    | inr other ↦ inr (Elem-keys k m {v = v} (rw other at h))
  ]

  pub lookup-of_Elem :
      (k : K) (m : List (K × V)) → Elem k (keys m) → (v : V) × (lookup k m ≡ some v)
  unfolding lookup
  lookup-of_Elem k [] h = absurd h
  lookup-of_Elem k ((j, w) ∷ m) h = elim (Bool-cases (j == k)) [
    | inl same ↦ (w, rw same refl)
    | inr other ↦ rw other (lookup-of_Elem k m (ground (arith, e.beq_iff j k)))
  ]

  pub lookup-insert-delete :
      (k j : K) (v : V) (m : List (K × V))
      → lookup j (delete k (insert k v m)) ≡ lookup j (delete k m)
  lookup-insert-delete k j v m =
      ground (arith, lookup-delete k j (insert k v m), lookup-delete k j m, lookup-insert k j v m)

  pub insert-insert : (k : K) (v : V) (m : List (K × V)) → insert k v (insert k v m) ≡ insert k v m
  unfolding insert
  insert-insert k v [] = ground (arith, ==-self k)
  insert-insert k v ((j, w) ∷ m) = ground (arith, ==-self k, insert-insert k v m)

-- A key is stored once.
abbrev pub IsMap : {K V : Type 0} ⦃e : Eq K⦄ → List (K × V) → Type 0
IsMap [] = Unit
IsMap ((k, v) ∷ m) = (lookup k m ≡ none) × IsMap m

module _ {K V : Type 0} ⦃e : Eq K⦄ where
  pub insert-IsMap : (k : K) (v : V) (m : List (K × V)) → IsMap m → IsMap (insert k v m)
  unfolding insert lookup
  insert-IsMap k v [] h = (refl, tt)
  insert-IsMap k v ((j, w) ∷ m) (fresh, rest) = elim (Bool-cases (j == k)) [
    | inl same ↦ rw same (subst (λ k. lookup k m ≡ none) (eq_of_== j k same) fresh, rest)
    | inr other ↦ rw other (
      ground (arith, lookup-insert k j v m, e.beq_iff k j, e.beq_iff j k),
      insert-IsMap k v m rest,
    )
  ]

  pub delete-IsMap : (k : K) (m : List (K × V)) → IsMap m → IsMap (delete k m)
  unfolding delete
  delete-IsMap k [] h = tt
  delete-IsMap k ((j, w) ∷ m) (fresh, rest) = elim (Bool-cases (j == k)) [
    | inl same ↦ rw same (delete-IsMap k m rest)
    | inr other ↦ rw other (ground (arith, lookup-delete k j m), delete-IsMap k m rest)
  ]

  pub length-insert_le : (k : K) (v : V) (m : List (K × V)) → length (insert k v m) ≤ length m + 1
  unfolding insert
  length-insert_le k v [] = omega arith
  length-insert_le k v ((j, w) ∷ m) = ground (arith, length-insert_le k v m)

  pub length-insert_old :
      (k : K) (v : V) (m : List (K × V)) {w : V}
      → lookup k m ≡ some w
      → length (insert k v m) ≡ length m
  unfolding insert lookup
  length-insert_old k v [] h = cc
  length-insert_old k v ((j, u) ∷ m) {w = w} h = elim (Bool-cases (j == k)) [
    | inl same ↦ rw same refl
    | inr other ↦ rw other (ap suc (length-insert_old k v m {w = w} (rw other at h)))
  ]

  pub length-delete_le : (k : K) (m : List (K × V)) → length (delete k m) ≤ length m
  unfolding delete
  length-delete_le k [] = omega arith
  length-delete_le k ((j, w) ∷ m) = ground (arith, length-delete_le k m)
