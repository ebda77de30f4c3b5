-- ===== src/Trading/Orders/OpenOrders.antt =====
-- The queries of internal/core/ordertracker for open orders.
use custom_hts_legacy.Prelude.{
  String, ◌≡◌, refl, ap, ◌∙◌, ◌↔◌, inl, inr, Bool, true, false, not, ◌&&◌, ◌||◌, List, [], ◌∷◌,
  arith, ◌==◌, string_eq, if◌then◌else◌, Bool-cases, Elem,
}
use custom_hts_legacy.Trading.Orders.{
  TrackedOrder, Tracker, is_terminal, get_open_orders, has_open_order,
}

Elem-behind :
    (b : Bool) (x o : TrackedOrder) (os : List TrackedOrder)
    → Elem x os
    → Elem x (if b then o ∷ os else os)
Elem-behind true x o os m = inr m
Elem-behind false x o os m = m

abbrev OpenFor : String → String → Tracker → Type 0
OpenFor account_id code t =
    (o : TrackedOrder) × Elem o (get_open_orders account_id t) × (o.code ≡ code)

OpenFor-behind :
    (account_id code id : String) (o : TrackedOrder) (t : Tracker)
    → OpenFor account_id code t
    → OpenFor account_id code ((id, o) ∷ t)
unfolding get_open_orders
OpenFor-behind account_id code id o t (x, m, e) = (
  x,
  Elem-behind (o.account_id == account_id && not (is_terminal o.status)) x o
      (get_open_orders account_id t) m,
  e,
)

has_open_order_found :
    (account_id code : String) (t : Tracker)
    → (account_id == "") ≡ false
    → has_open_order account_id code t ≡ true
    → OpenFor account_id code t
unfolding has_open_order get_open_orders
has_open_order_found account_id code [] named h = cc
has_open_order_found account_id code ((id, o) ∷ t) named h =
    elim (Bool-cases (not (code == o.code) || is_terminal o.status)) [
      | inl out ↦
          OpenFor-behind account_id code id o t
            (has_open_order_found account_id code t named (rw (out, has_open_order) at h))
      | inr live ↦ elim (Bool-cases (o.account_id == account_id)) [
        | inl mine ↦
            let running : is_terminal o.status ≡ false = ground arith in
            (
              o,
              rw (mine, running, get_open_orders) (inl refl),
              ground (arith, string_eq.beq_iff code o.code),
            )
        | inr other ↦ OpenFor-behind account_id code id o t (
            has_open_order_found account_id code t named
              (rw (live, named, other, has_open_order) at h))
      ]
    ]

open_order_counts :
    (account_id code : String) (t : Tracker) (o : TrackedOrder)
    → Elem o (get_open_orders account_id t)
    → o.code ≡ code
    → has_open_order account_id code t ≡ true
unfolding has_open_order get_open_orders
open_order_counts account_id code [] o m e = absurd m
open_order_counts account_id code ((id, x) ∷ t) o m e =
    elim (Bool-cases (x.account_id == account_id && not (is_terminal x.status))) [
      | inl listed ↦ elim (rw (listed, get_open_orders) at m) [
        | inl here ↦
            let same : x.code ≡ code = ap (λ y. y.code) here ∙ e in
            ground (arith, string_eq.beq_iff code x.code)
        | inr rest ↦ ground (arith, open_order_counts account_id code t o rest e)
      ]
      | inr out ↦
          ground (arith, open_order_counts account_id code t o (rw (out, get_open_orders) at m) e)
    ]

-- For a named account, `HasOpenOrder` answers yes just if one of the orders that `GetOpenOrders` answers
-- with is for the code.
pub has_open_order-get_open_orders :
    (account_id code : String) (t : Tracker)
    → (account_id == "") ≡ false
    → (has_open_order account_id code t ≡ true)
      ↔ ((o : TrackedOrder) × Elem o (get_open_orders account_id t) × (o.code ≡ code))
has_open_order-get_open_orders account_id code t named = (
  has_open_order_found account_id code t named,
  λ (o, m, e). open_order_counts account_id code t o m e,
)
