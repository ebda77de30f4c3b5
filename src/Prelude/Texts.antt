-- ===== src/Prelude/Texts.antt =====
-- Go strings as lists of code points (valid UTF-8), and the functions of package strings that the code uses.
use Prim.Native.Nat.{ℕ, ◌+◌}
use Prim.Native.Char.{code}
use Prim.Native.String.{String}
use mathlib.Core.Path.{◌≡◌, refl}
use mathlib.Core.Logic.{◌↔◌, ◌≢◌, inl, inr}
use mathlib.Core.Bool.{Bool, true, false, ◌&&◌, ◌||◌}
use mathlib.Core.Option.{Option, none, some}
use mathlib.Core.List.{List, [], ◌∷◌, ◌++◌}
use native.Mathlib.Omega.{arith}
use custom_hts_legacy.Prelude.Tests.{
  Eq, nat_beq, nat_beq_iff, nat_eq, ltb, leb, if◌then◌else◌, Bool-cases, Option-cases,
}
use custom_hts_legacy.Prelude.Lists.{All}

abbrev pub Text : Type 0
Text = List ℕ

-- The code points of a literal.
abbrev pub codes : String → Text
codes String.[] = []
codes (String.◌∷◌ c s) = code c ∷ codes s

abbrev pub text_beq : Text → Text → Bool
text_beq [] [] = true
text_beq [] (d ∷ t) = false
text_beq (c ∷ s) [] = false
text_beq (c ∷ s) (d ∷ t) = nat_beq c d && text_beq s t

pub text_beq_iff : (s t : Text) → (text_beq s t ≡ true) ↔ (s ≡ t)
text_beq_iff [] [] = ground arith
text_beq_iff [] (d ∷ t) = ground arith
text_beq_iff (c ∷ s) [] = ground arith
text_beq_iff (c ∷ s) (d ∷ t) = ground (arith, nat_beq_iff c d, text_beq_iff s t)

instance abbrev pub text_eq : Eq Text
text_eq = record { beq = text_beq; beq_iff = text_beq_iff }

-- The bytes of a code point in UTF-8, and `len` of a string.
abbrev width : ℕ → ℕ
width c = if ltb c 0x80 then 1 else if ltb c 0x800 then 2 else if ltb c 0x10000 then 3 else 4

unfoldable pub byte_len : Text → ℕ
byte_len [] = 0
byte_len (c ∷ s) = width c + byte_len s

-- unicode.IsSpace.
unfoldable pub is_space : ℕ → Bool
is_space c =
    leb 9 c && leb c 13
    || nat_beq c 32
    || nat_beq c 0x85
    || nat_beq c 0xa0
    || nat_beq c 0x1680
    || leb 0x2000 c && leb c 0x200a
    || nat_beq c 0x2028
    || nat_beq c 0x2029
    || nat_beq c 0x202f
    || nat_beq c 0x205f
    || nat_beq c 0x3000

unfoldable pub trim_left : Text → Text
trim_left [] = []
trim_left (c ∷ s) = let rest = trim_left s in if is_space c then rest else c ∷ s

abbrev pub trim_cons : ℕ → Text → Text
trim_cons c [] = if is_space c then [] else c ∷ []
trim_cons c (d ∷ s) = c ∷ d ∷ s

unfoldable pub trim_right : Text → Text
trim_right [] = []
trim_right (c ∷ s) = trim_cons c (trim_right s)

-- strings.TrimSpace.
unfoldable pub trim_space : Text → Text
unfolding trim_left trim_right
trim_space s = trim_right (trim_left s)

abbrev pub Lacks : ℕ → Text → Type 0
Lacks sep = All (λ c. c ≢ sep)

none-ne-some {ℓ} : {A : Type ℓ} {a : A} → none ≡ some a → ⊥
none-ne-some h = cc

-- A cut at the first `sep`: what stands before it and behind it.
unfoldable pub cut_at : ℕ → Text → Option (Text × Text)
cut_at sep [] = none
cut_at sep (c ∷ s) =
    let rest = cut_at sep s in
    if nat_beq c sep
    then some ([], s)
    else elim rest [ none ↦ none | some (before, behind) ↦ some (c ∷ before, behind) ]

pub cut_at-append :
    (sep : ℕ) (front back : Text)
    → Lacks sep front
    → cut_at sep (front ++ (sep ∷ back)) ≡ some (front, back)
unfolding cut_at
cut_at-append sep [] back h = ground arith
cut_at-append sep (c ∷ front) back (other, others) =
    ground (arith, nat_beq_iff c sep, cut_at-append sep front back others)

pub cut_at-Lacks : (sep : ℕ) (s : Text) → Lacks sep s → cut_at sep s ≡ none
unfolding cut_at
cut_at-Lacks sep [] h = refl
cut_at-Lacks sep (c ∷ s) (other, others) =
    ground (arith, nat_beq_iff c sep, cut_at-Lacks sep s others)

pub cut_at_sound :
    (sep : ℕ) (s : Text) {before behind : Text}
    → cut_at sep s ≡ some (before, behind)
    → (s ≡ before ++ (sep ∷ behind)) × Lacks sep before
unfolding cut_at
cut_at_sound sep [] h = cc
cut_at_sound sep (c ∷ s) {before} {behind} h = elim (Bool-cases (nat_beq c sep)) [
  | inl same ↦ ground (arith, nat_beq_iff c sep)
  | inr other ↦ elim (Option-cases (cut_at sep s)) [
    | inl none_of ↦ absurd (none-ne-some (rw (other, none_of) at h))
    | inr ((front, back), found) ↦
        let (e, lacks) = cut_at_sound sep s found in
        let here : ◌≡◌ {A = Option (Text × Text)} (some (c ∷ front, back)) (some (before, behind)) =
          rw (other, found) at h in
        ground (arith, nat_beq_iff c sep)
  ]
]
