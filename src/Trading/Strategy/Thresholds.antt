-- ===== src/Trading/Strategy/Thresholds.antt =====
-- The bounds of the default rules of internal/core/strategy, in the units in which a tick is compared.
use custom_hts_legacy.Prelude.{
  ℕ, suc, ◌-◌, ◌*◌, ◌/◌, ◌^◌, ◌<◌, ◌≤◌, String, ◌≡◌, refl, inl, inr, false, [], leb, arith,
  Bool-cases,
}
use custom_hts_legacy.Prelude.Int.{
  pos, negsuc, sub_ℕ, ◌-ℤ◌, ◌*ℤ◌, -ℤ_parts, eq_of_parts, int64, int64-of_Fits64, quot, leb_ℤ,
}
use custom_hts_legacy.Prelude.Wrap.{pos-*ℤ}
use custom_hts_legacy.Prelude.Float.{trunc_to_int64, scale}
use custom_hts_legacy.Trading.Domain.{TickEvent}
use custom_hts_legacy.Trading.Balances.{HoldingState}
use custom_hts_legacy.Trading.Strategy.{
  halves, default_rule, pct_to_rate, pnl_rate, exit_of_holding,
}
use native.Mathlib.Nat.{div-lt_iff_lt-mul}

rate_2_0 : pct_to_rate (halves 4) ≡ pos 20000
unfolding pct_to_rate trunc_to_int64 int64 scale
rate_2_0 = refl

rate_1_5 : int64 (pos 0 -ℤ pct_to_rate (halves 3)) ≡ negsuc 14999
unfolding pct_to_rate trunc_to_int64 int64 scale ◌-ℤ◌
rate_1_5 = refl

gain_rate :
    (p c : ℕ)
    → c ≤ p
    → p * 10000 < 2 ^ 63
    → pnl_rate (pos p) (pos c) ≡ int64 (pos ((p - c) * 10000 / c))
unfolding pnl_rate quot
gain_rate p c more small =
    let difference : pos p -ℤ pos c ≡ pos (p - c) = difference_up in
    let fits : int64 (pos (p - c)) ≡ pos (p - c) =
      int64-of_Fits64 (pos (p - c)) (omega arith, omega arith) in
    let scaled : int64 (pos ((p - c) * 10000)) ≡ pos ((p - c) * 10000) =
      int64-of_Fits64 (pos ((p - c) * 10000)) (omega arith, omega arith) in
    rw (difference, fits, pos-*ℤ (p - c) 10000, scaled, quot) refl
  where
    difference_up : pos p -ℤ pos c ≡ pos (p - c)
    difference_up =
        eq_of_parts (pos p -ℤ pos c) (pos (p - c)) (ground (arith, -ℤ_parts (pos p) (pos c)))

loss_rate :
    (p c : ℕ)
    → p < c
    → c * 10000 < 2 ^ 63
    → pnl_rate (pos p) (pos c) ≡ int64 (sub_ℕ 0 ((c - p) * 10000 / c))
unfolding pnl_rate quot ◌*ℤ◌
loss_rate p c less small =
    let difference : pos p -ℤ pos c ≡ negsuc (c - p - 1) =
      eq_of_parts (pos p -ℤ pos c) (negsuc (c - p - 1))
        (ground (arith, -ℤ_parts (pos p) (pos c))) in
    let fits : int64 (negsuc (c - p - 1)) ≡ negsuc (c - p - 1) =
      int64-of_Fits64 (negsuc (c - p - 1)) (omega arith, omega arith) in
    let times : negsuc (c - p - 1) *ℤ pos 10000 ≡ negsuc ((c - p) * 10000 - 1) = ground arith in
    let scaled : int64 (negsuc ((c - p) * 10000 - 1)) ≡ negsuc ((c - p) * 10000 - 1) =
      int64-of_Fits64 (negsuc ((c - p) * 10000 - 1)) (omega arith, omega arith) in
    let back : suc ((c - p) * 10000 - 1) ≡ (c - p) * 10000 = omega arith in
    rw (difference, fits, times, scaled, quot, back) refl

-- A price below three times the cost is within both bounds.
rate_within :
    (p c : ℕ)
    → p < 3 * c
    → p * 10000 < 2 ^ 63
    → c * 10000 < 2 ^ 63
    → (leb_ℤ (pos 20000) (pnl_rate (pos p) (pos c)) ≡ false)
      × (leb_ℤ (pnl_rate (pos p) (pos c)) (negsuc 14999) ≡ false)
rate_within p c below small small' = elim (Bool-cases (leb c p)) [
  | inl more ↦
      let some_cost : 0 < c = omega arith in
      let bound : (p - c) * 10000 / c < 20000 = (div-lt_iff_lt-mul some_cost).1 (ground arith) in
      let fits : int64 (pos ((p - c) * 10000 / c)) ≡ pos ((p - c) * 10000 / c) =
        int64-of_Fits64 (pos ((p - c) * 10000 / c)) (omega arith, omega arith) in
      rw (gain_rate p c (ground arith) small, fits) (ground arith, ground arith)
  | inr less ↦
      let some_cost : 0 < c = omega arith in
      let bound : (c - p) * 10000 / c < 10001 = (div-lt_iff_lt-mul some_cost).1 (ground arith) in
      let fits : int64 (sub_ℕ 0 ((c - p) * 10000 / c)) ≡ sub_ℕ 0 ((c - p) * 10000 / c) =
        int64-of_Fits64 (sub_ℕ 0 ((c - p) * 10000 / c)) (ground arith, ground arith) in
      rw (loss_rate p c (ground arith) small', fits) (ground arith, ground arith)
]

-- Under a default rule, which names 2.0% and 1.5%, a holding is kept at every price below three times its
-- average cost, however low: a rate of profit is a fraction times 10000, and the bounds are percentages
-- times 10000. The prices and costs are those whose product with 10000 fits into 64 bits.
pub default_rule_keeps :
    (theme_name account_id : String) (tick : TickEvent) (h : HoldingState) (price cost : ℕ)
    → tick.price ≡ pos price
    → h.avg_cost ≡ pos cost
    → price < 3 * cost
    → price * 10000 < 2 ^ 63
    → cost * 10000 < 2 ^ 63
    → exit_of_holding tick (default_rule theme_name) account_id h ≡ []
unfolding exit_of_holding
default_rule_keeps theme_name account_id tick h price cost at_price at_cost below small small' =
    let (no_gain, no_loss) = rate_within price cost below small small' in
    let rate : pnl_rate tick.price h.avg_cost ≡ pnl_rate (pos price) (pos cost) =
      rw (at_price, at_cost) refl in
    rw (rate, rate_2_0, rate_1_5, no_gain, no_loss, exit_of_holding) (ground arith)
