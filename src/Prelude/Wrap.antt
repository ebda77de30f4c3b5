-- ===== src/Prelude/Wrap.antt =====
-- The wrap-around of int64 is a congruence: intermediate overflow does not change a wrapped result.
use Prim.Native.Nat.{ℕ, ◌+◌, ◌*◌, ◌%◌, ◌^◌}
use mathlib.Core.Path.{◌≡◌, refl, ◌∙◌}
use native.Mathlib.Omega.{arith}
use custom_hts_legacy.Prelude.Int.{
  ℤ, pos, negsuc, pos_part, neg_part, ◌+ℤ◌, ◌-ℤ◌, ◌*ℤ◌, word, int64, +ℤ_parts, -ℤ_parts, Fits64,
  int64-of_Fits64, eq_of_parts,
}

-- Two integers that agree modulo 2 ^ 64.
abbrev pub Agree : ℤ → ℤ → Type 0
Agree a b = (pos_part a + neg_part b) % 2 ^ 64 ≡ (pos_part b + neg_part a) % 2 ^ 64

int64-Agree : (a : ℤ) → Agree (int64 a) a
unfolding int64
int64-Agree (pos n) = ground arith
int64-Agree (negsuc n) = ground arith

word-of_Agree : (a b : ℤ) → Agree a b → word a ≡ word b
word-of_Agree a b h = omega arith

int64-of_Agree : (a b : ℤ) → Agree a b → int64 a ≡ int64 b
unfolding int64
int64-of_Agree a b h = rw (word-of_Agree a b h) refl

pub int64-+ℤ : (a b : ℤ) → int64 (int64 a +ℤ b) ≡ int64 (a +ℤ b)
int64-+ℤ a b =
    int64-of_Agree _ _ (ground (arith, int64-Agree a, +ℤ_parts (int64 a) b, +ℤ_parts a b))

pub int64--ℤ : (a b : ℤ) → int64 (int64 a -ℤ b) ≡ int64 (a -ℤ b)
int64--ℤ a b =
    int64-of_Agree _ _ (ground (arith, int64-Agree a, -ℤ_parts (int64 a) b, -ℤ_parts a b))

pub int64-+ℤ_right : (a b : ℤ) → int64 (a +ℤ int64 b) ≡ int64 (a +ℤ b)
int64-+ℤ_right a b =
    int64-of_Agree _ _ (ground (arith, int64-Agree b, +ℤ_parts a (int64 b), +ℤ_parts a b))

pub int64--ℤ_right : (a b : ℤ) → int64 (a -ℤ int64 b) ≡ int64 (a -ℤ b)
int64--ℤ_right a b =
    int64-of_Agree _ _ (ground (arith, int64-Agree b, -ℤ_parts a (int64 b), -ℤ_parts a b))

pub +ℤ_assoc : (a b c : ℤ) → (a +ℤ b) +ℤ c ≡ a +ℤ (b +ℤ c)
+ℤ_assoc a b c =
    eq_of_parts _ _
      (ground (arith, +ℤ_parts (a +ℤ b) c, +ℤ_parts a b, +ℤ_parts a (b +ℤ c), +ℤ_parts b c))

pub -ℤ_as_+ℤ : (a b : ℤ) → a -ℤ b ≡ a +ℤ (pos 0 -ℤ b)
-ℤ_as_+ℤ a b =
    eq_of_parts _ _ (ground (arith, -ℤ_parts a b, +ℤ_parts a (pos 0 -ℤ b), -ℤ_parts (pos 0) b))

pub +ℤ_zero : (a : ℤ) → a +ℤ pos 0 ≡ a
+ℤ_zero a = eq_of_parts _ _ (ground (arith, +ℤ_parts a (pos 0)))

-- What was added can be taken away again, although both steps wrap around.
pub int64_undo_add : (a b : ℤ) → Fits64 a → int64 (int64 (a +ℤ b) -ℤ b) ≡ a
int64_undo_add a b fits =
    int64--ℤ (a +ℤ b) b
    ∙ rw (eq_of_parts ((a +ℤ b) -ℤ b) a (ground (arith, -ℤ_parts (a +ℤ b) b, +ℤ_parts a b)))
        (int64-of_Fits64 a fits)

pub int64_undo_sub : (a b : ℤ) → Fits64 a → int64 (int64 (a -ℤ b) +ℤ b) ≡ a
int64_undo_sub a b fits =
    int64-+ℤ (a -ℤ b) b
    ∙ rw (eq_of_parts ((a -ℤ b) +ℤ b) a (ground (arith, +ℤ_parts (a -ℤ b) b, -ℤ_parts a b)))
        (int64-of_Fits64 a fits)

pub pos-*ℤ : (a b : ℕ) → pos a *ℤ pos b ≡ pos (a * b)
unfolding ◌*ℤ◌
pos-*ℤ a b = ground arith

pub pos-+ℤ : (a b : ℕ) → pos a +ℤ pos b ≡ pos (a + b)
unfolding ◌+ℤ◌
pos-+ℤ a b = ground arith
