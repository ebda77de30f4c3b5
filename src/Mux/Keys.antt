-- ===== src/Mux/Keys.antt =====
-- mux.go of internal/core/pkg/wsrefact_v6: the replay order of one worker, as a list of keys.
use custom_hts_legacy.Prelude.{
  ℕ, zero, suc, ◌+◌, ◌≡◌, refl, String, List, [], ◌∷◌, ◌++◌, ◌==◌, length, arith, Elem, inl, inr,
  ltb, if◌then◌else◌, Bool-cases, eq_of_==, ◌⊎◌, string_eq, Elem-append,
}
use custom_hts_legacy.Prelude.Int.{ℤ, pos, negsuc}

-- `appendDesiredKey`, which no code of the package calls.
unfoldable pub append_key : List String → String → List String
append_key ks key = ks ++ (key ∷ [])

-- The loop of `removeDesiredKey` from index `i` on: the keys that are left, and the index of the
-- first occurrence or -1.
unfoldable pub remove_from : ℕ → List String → String → List String × ℤ
remove_from i [] key = ([], negsuc 0)
remove_from i (k ∷ ks) key =
    let (rest, index) = remove_from (suc i) ks key in
    if k == key then (ks, pos i) else (k ∷ rest, index)

unfoldable pub remove_key : List String → String → List String × ℤ
unfolding remove_from
remove_key ks key = remove_from 0 ks key

-- The `append`, `copy` and write of `insertDesiredKey`: the keys from `i` on move up by one.
unfoldable pub splice : ℕ → String → List String → List String
splice zero key ks = key ∷ ks
splice (suc i) key [] = key ∷ []
splice (suc i) key (k ∷ ks) = k ∷ splice i key ks

unfoldable pub insert_key : List String → String → ℤ → List String
unfolding splice
insert_key ks key (negsuc n) = ks ++ (key ∷ [])
insert_key ks key (pos i) = if ltb i (length ks) then splice i key ks else ks ++ (key ∷ [])

insert_key-zero : (ks : List String) (key : String) → insert_key ks key (pos 0) ≡ key ∷ ks
unfolding insert_key
insert_key-zero [] key = refl
insert_key-zero (k ∷ ks) key = ground arith

insert_key-suc :
    (k : String) (ks : List String) (key : String) (j : ℕ)
    → insert_key (k ∷ ks) key (pos (suc j)) ≡ k ∷ insert_key ks key (pos j)
unfolding insert_key
insert_key-suc k ks key j = ground arith

-- What a removal leaves: the key was not there, or putting it back at its index restores the keys.
abbrev Removal : ℕ → List String → String → List String × ℤ → Type 0
Removal i ks key r =
    ((r ≡ (ks, negsuc 0)) × (Elem key ks → ⊥))
    ⊎ ((j : ℕ) × (rest : List String) × (r ≡ (rest, pos (i + j)))
        × (insert_key rest key (pos j) ≡ ks)
        × Elem key ks)

remove_from-Removal :
    (i : ℕ) (ks : List String) (key : String) → Removal i ks key (remove_from i ks key)
unfolding remove_from
remove_from-Removal i [] key = inl (refl, λ m. m)
remove_from-Removal i (k ∷ ks) key = elim (Bool-cases (k == key)) [
  | inl same ↦ inr (
    0,
    ks,
    rw same (ground arith),
    rw (insert_key-zero ks key) (ground (arith, eq_of_== k key)),
    inl (eq_of_== k key same),
  )
  | inr other ↦ elim (remove_from-Removal (suc i) ks key) [
    | inl (e, out) ↦ inl (rw (other, e) refl, λ m. ground (arith, string_eq.beq_iff k key))
    | inr (j, rest, e, back, m) ↦ inr (
      suc j,
      k ∷ rest,
      rw (other, e) (ground arith),
      rw (insert_key-suc k rest key j, back) refl,
      inr m,
    )
  ]
]

-- Putting a removed key back at the index of its removal restores the replay order.
pub insert_key-remove_key :
    (ks : List String) (key : String)
    → Elem key ks
    → let (rest, index) = remove_key ks key in insert_key rest key index ≡ ks
unfolding remove_key
insert_key-remove_key ks key m = elim (remove_from-Removal 0 ks key) [
  | inl (e, out) ↦ absurd (out m)
  | inr (j, rest, e, back, _) ↦ let shift : 0 + j ≡ j = omega arith in rw (e, shift) back
]

-- A key that is not there is put at the end.
pub insert_key-remove_absent :
    (ks : List String) (key : String)
    → (Elem key ks → ⊥)
    → let (rest, index) = remove_key ks key in insert_key rest key index ≡ ks ++ (key ∷ [])
unfolding remove_key insert_key
insert_key-remove_absent ks key out = elim (remove_from-Removal 0 ks key) [
  | inl (e, _) ↦ rw e refl
  | inr (j, rest, e, back, m) ↦ absurd (out m)
]

-- No key stands twice.
abbrev pub Distinct : List String → Type 0
Distinct [] = Unit
Distinct (k ∷ ks) = (Elem k ks → ⊥) × Distinct ks

Elem-remove_from :
    (i : ℕ) (ks : List String) (key a : String) → Elem a (remove_from i ks key).0 → Elem a ks
unfolding remove_from
Elem-remove_from i [] key a m = m
Elem-remove_from i (k ∷ ks) key a m = elim (Bool-cases (k == key)) [
  | inl same ↦ inr (rw same at m)
  | inr other ↦
      elim (let m' : (k ≡ a) ⊎ Elem a (remove_from (suc i) ks key).0 = rw other at m in m') [
        | inl e ↦ inl e
        | inr n ↦ inr (Elem-remove_from (suc i) ks key a n)
      ]
]

pub Elem-remove_key : (ks : List String) (key a : String) → Elem a (remove_key ks key).0 → Elem a ks
unfolding remove_key
Elem-remove_key ks key a m = Elem-remove_from 0 ks key a m

remove_from-Distinct :
    (i : ℕ) (ks : List String) (key : String)
    → Distinct ks
    → Distinct (remove_from i ks key).0 × (Elem key (remove_from i ks key).0 → ⊥)
unfolding remove_from
remove_from-Distinct i [] key d = (tt, λ m. m)
remove_from-Distinct i (k ∷ ks) key d = elim (Bool-cases (k == key)) [
  | inl same ↦ rw same (d.1, rw (eq_of_== k key same) at d.0)
  | inr other ↦
      let (d', out) = remove_from-Distinct (suc i) ks key d.1 in
      rw other (
        ((λ m. d.0 (Elem-remove_from (suc i) ks key k m)), d'),
        λ m. ground (arith, string_eq.beq_iff k key),
      )
]

-- Removal keeps the keys distinct, and a key that stood once is gone.
pub remove_key-Distinct :
    (ks : List String) (key : String)
    → Distinct ks
    → Distinct (remove_key ks key).0 × (Elem key (remove_key ks key).0 → ⊥)
unfolding remove_key
remove_key-Distinct ks key d = remove_from-Distinct 0 ks key d

pub Distinct-snoc :
    (ks : List String) (key : String)
    → Distinct ks
    → (Elem key ks → ⊥)
    → Distinct (ks ++ (key ∷ []))
Distinct-snoc [] key d out = ((λ m. m), tt)
Distinct-snoc (k ∷ ks) key d out = (
  (λ m. elim (Elem-append ks (key ∷ []) k m) [ inl l ↦ d.0 l | inr r ↦ out (inl (ground arith)) ]),
  Distinct-snoc ks key d.1 (λ m. out (inr m)),
)

remove_from_absent :
    (i : ℕ) (ks : List String) (key : String) → (Elem key ks → ⊥) → (remove_from i ks key).0 ≡ ks
remove_from_absent i ks key out = elim (remove_from-Removal i ks key) [
  | inl (e, _) ↦ rw e refl
  | inr (j, rest, e, back, m) ↦ absurd (out m)
]

-- A key that is not there leaves the replay order alone.
pub remove_key_absent :
    (ks : List String) (key : String) → (Elem key ks → ⊥) → (remove_key ks key).0 ≡ ks
unfolding remove_key
remove_key_absent ks key out = remove_from_absent 0 ks key out
