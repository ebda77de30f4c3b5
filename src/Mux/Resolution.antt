-- ===== src/Mux/Resolution.antt =====
-- `Subscription.resolve` of internal/core/pkg/wsrefact_v6/types.go: one result for each handle.
use custom_hts_legacy.Prelude.{
  ℕ, ◌≡◌, refl, inl, inr, false, Option, none, some, List, arith, Option-cases, nat_eq, ◌==◌,
}
use custom_hts_legacy.Prelude.Maps.{lookup, lookup-insert, lookup-insert_self}
use custom_hts_legacy.Mux.Types.{Err, resolve}

-- The first result of a handle is what its caller gets.
pub lookup-resolve_fresh :
    (sub : ℕ) (e : Option Err) (results : List (ℕ × Option Err))
    → lookup sub results ≡ none
    → lookup sub (resolve sub e results) ≡ some e
unfolding resolve
lookup-resolve_fresh sub e results h = rw (h, resolve) (lookup-insert_self sub e results)

-- No later call changes a result.
pub lookup-resolve_once :
    (sub s : ℕ) (e : Option Err) (results : List (ℕ × Option Err)) {x : Option Err}
    → lookup s results ≡ some x
    → lookup s (resolve sub e results) ≡ some x
unfolding resolve
lookup-resolve_once sub s e results {x = x} h = elim (Option-cases (lookup sub results)) [
  | inl fresh ↦
      rw (fresh, resolve) (ground (arith, lookup-insert sub s e results, nat_eq.beq_iff sub s))
  | inr (y, old) ↦ rw (old, resolve) h
]

-- Another handle is left alone.
pub lookup-resolve_ne :
    (sub s : ℕ) (e : Option Err) (results : List (ℕ × Option Err))
    → (sub == s) ≡ false
    → lookup s (resolve sub e results) ≡ lookup s results
unfolding resolve
lookup-resolve_ne sub s e results h = elim (Option-cases (lookup sub results)) [
  | inl fresh ↦ rw (fresh, resolve) (ground (arith, lookup-insert sub s e results))
  | inr (y, old) ↦ rw (old, resolve) refl
]
