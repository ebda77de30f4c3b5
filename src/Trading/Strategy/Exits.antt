-- ===== src/Trading/Strategy/Exits.antt =====
-- `OnTick` of internal/core/strategy: each signal is a justified buy or a justified exit.
use custom_hts_legacy.Prelude.{
  String, ◌≡◌, refl, ◌⊎◌, inl, inr, false, some, arith, Bool-cases, Option-cases, All, All-append,
  All-imp,
}
use custom_hts_legacy.Prelude.Int.{ℤ, pos, ◌-ℤ◌, int64, leb_ℤ, ◌≤ℤ◌, ◌<ℤ◌}
use custom_hts_legacy.Trading.Domain.{TickEvent, TradeSignal}
use custom_hts_legacy.Trading.Balances.{HoldingState, find_holding}
use custom_hts_legacy.Trading.Strategy.{
  ThemeRule, ThemeStrategy, pct_to_rate, pnl_rate, sell_signal, find_rule_for_target,
  exit_of_holding, check_exit_conditions, rule_signals, on_tick,
}
use custom_hts_legacy.Trading.Strategy.Buying.{RuleBuy, rule_signals-RuleBuy}

-- A signal that sells a whole holding at the market, since its profit or its loss has reached the rule's.
pub record IsExit (s : ThemeStrategy) (tick : TickEvent) (sig : TradeSignal) : Type 0 where
  pub rule : ThemeRule
  pub account_id : String
  pub holding : HoldingState
  pub of_target : find_rule_for_target s.themes s.rules tick.code ≡ some rule
  pub held : find_holding tick.code s.balances ≡ some (account_id, holding)
  pub signal : sig ≡ sell_signal account_id tick.code holding.quantity
  pub positive : (pos 0 <ℤ holding.quantity) × (pos 0 <ℤ holding.avg_cost)
  pub reached :
      (pct_to_rate rule.profit_pct ≤ℤ pnl_rate tick.price holding.avg_cost)
      ⊎ (pnl_rate tick.price holding.avg_cost ≤ℤ int64 (pos 0 -ℤ pct_to_rate rule.loss_pct))

exit_of_holding-IsExit :
    (s : ThemeStrategy) (tick : TickEvent) (rule : ThemeRule) (account_id : String)
    (h : HoldingState)
    → find_rule_for_target s.themes s.rules tick.code ≡ some rule
    → find_holding tick.code s.balances ≡ some (account_id, h)
    → All (IsExit s tick) (exit_of_holding tick rule account_id h)
unfolding exit_of_holding
exit_of_holding-IsExit s tick rule account_id h of_target held =
    elim (Bool-cases (leb_ℤ h.quantity (pos 0))) [
      | inl empty ↦ rw (empty, exit_of_holding) tt
      | inr full ↦ elim (Bool-cases (leb_ℤ h.avg_cost (pos 0))) [
        | inl free ↦ rw (full, free, exit_of_holding) tt
        | inr paid ↦ elim (Bool-cases (leb_ℤ (pct_to_rate rule.profit_pct) rate)) [
          | inl gain ↦
              rw (full, paid, gain, exit_of_holding) (exit full paid (inl (ground arith)), tt)
          | inr no_gain ↦
              elim (Bool-cases (leb_ℤ rate (int64 (pos 0 -ℤ pct_to_rate rule.loss_pct)))) [
                | inl loss ↦
                    rw (full, paid, no_gain, loss, exit_of_holding)
                      (exit full paid (inr (ground arith)), tt)
                | inr no_loss ↦ rw (full, paid, no_gain, no_loss, exit_of_holding) tt
              ]
        ]
      ]
    ]
  where
    rate : ℤ
    rate = pnl_rate tick.price h.avg_cost

    exit :
        leb_ℤ h.quantity (pos 0) ≡ false
        → leb_ℤ h.avg_cost (pos 0) ≡ false
        → (pct_to_rate rule.profit_pct ≤ℤ rate)
          ⊎ (rate ≤ℤ int64 (pos 0 -ℤ pct_to_rate rule.loss_pct))
        → IsExit s tick (sell_signal account_id tick.code h.quantity)
    exit full paid reached = record {
      rule = rule;
      account_id = account_id;
      holding = h;
      of_target = of_target;
      held = held;
      signal = refl;
      positive = (ground arith, ground arith);
      reached = reached;
    }

check_exit_conditions-IsExit :
    (s : ThemeStrategy) (tick : TickEvent) → All (IsExit s tick) (check_exit_conditions s tick)
unfolding check_exit_conditions
check_exit_conditions-IsExit s tick =
    elim (Option-cases (find_rule_for_target s.themes s.rules tick.code)) [
      | inl out ↦ rw (out, check_exit_conditions) tt
      | inr (rule, of_target) ↦ elim (Option-cases (find_holding tick.code s.balances)) [
        | inl out ↦ rw (of_target, out, check_exit_conditions) tt
        | inr ((account_id, h), held) ↦
            rw (of_target, held, check_exit_conditions)
              (exit_of_holding-IsExit s tick rule account_id h of_target held)
      ]
    ]

-- Each signal that the theme strategy gives for a tick is either a buy or an exit. A buy belongs to a rule
-- whose theme has the code of the tick and whose conditions all hold of stocks and prices that are there;
-- it is for a target of the rule that is not held and has no open order, at its last price, which is
-- positive, for a positive quantity that costs no more than the target's amount. An exit sells the whole
-- holding that the tick's code has, since the profit or the loss has reached the bound of the code's rule.
pub on_tick_justified :
    (s : ThemeStrategy) (tick : TickEvent)
    → All (λ sig. RuleBuy s s.rules tick.code sig ⊎ IsExit s tick sig) (on_tick s tick)
unfolding on_tick
on_tick_justified s tick =
    All-append (λ sig. RuleBuy s s.rules tick.code sig ⊎ IsExit s tick sig)
      (rule_signals s s.rules tick.code) (check_exit_conditions s tick)
      (All-imp (RuleBuy s s.rules tick.code) (rule_signals s s.rules tick.code) (λ sig b. inl b)
        (rule_signals-RuleBuy s s.rules tick.code))
      (All-imp (IsExit s tick) (check_exit_conditions s tick) (λ sig e. inr e)
        (check_exit_conditions-IsExit s tick))
