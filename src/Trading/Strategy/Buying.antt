-- ===== src/Trading/Strategy/Buying.antt =====
-- The buy signals of internal/core/strategy: when they are given, and what they can cost.
use custom_hts_legacy.Prelude.{
  ℕ, ◌*◌, ◌/◌, ◌<◌, String, ◌≡◌, refl, inl, inr, true, false, ◌&&◌, Option, none, some, List, [],
  ◌∷◌, arith, string_eq, Bool-cases, Option-cases, Elem, All, All-append, All-imp,
}
use custom_hts_legacy.Prelude.Int.{ℤ, pos, negsuc, leb_ℤ, quot, ◌≤ℤ◌}
use custom_hts_legacy.Trading.Domain.{TradeSignal}
use custom_hts_legacy.Trading.Prices.{Snapshot, get}
use custom_hts_legacy.Trading.Orders.{has_open_order}
use custom_hts_legacy.Trading.Balances.{get_holding}
use custom_hts_legacy.Trading.Strategy.{
  ThemeStock, ThemeRule, RankCondition, BuyTarget, ThemeStrategy, pct_to_rate, find_stock,
  is_stock_in_theme, check_condition, check_conditions, check_all_conditions, is_held, buy_signal,
  priced_buy, stock_buy, target_buy, generate_buy_signals, rule_signals,
}
use native.Mathlib.Nat.{div-mul-le_self}

-- A signal that buys at the last price, within the amount of the target.
pub record IsAffordable (target : BuyTarget) (code : String) (found : Option Snapshot)
    (sig : TradeSignal) : Type 0 where
  pub price : ℕ
  pub quantity : ℕ
  pub snapshot : Snapshot
  pub last : found ≡ some snapshot
  pub signal : sig ≡ buy_signal code (pos quantity) snapshot.price
  pub at_price : snapshot.price ≡ pos price
  pub positive : (0 < price) × (0 < quantity)
  pub within : pos (quantity * price) ≤ℤ target.buy_amount

quot_positive :
    (amount price : ℤ)
    → leb_ℤ price (pos 0) ≡ false
    → leb_ℤ (quot amount price) (pos 0) ≡ false
    → (p q : ℕ) × (price ≡ pos p)
      × (quot amount price ≡ pos q)
      × ((0 < p) × (0 < q))
      × (pos (q * p) ≤ℤ amount)
unfolding quot
quot_positive (pos a) (pos p) h k =
    let below = div-mul-le_self a p in
    (p, a / p, refl, refl, (ground arith, ground arith), ground arith)
quot_positive (negsuc a) (pos p) h k = absurd (ground arith)
quot_positive a (negsuc p) h k = absurd (ground arith)

priced_buy-IsAffordable :
    (target : BuyTarget) (code : String) (found : Option Snapshot)
    → All (IsAffordable target code found) (priced_buy target code found)
unfolding priced_buy
priced_buy-IsAffordable target code none = tt
priced_buy-IsAffordable target code (some snap) = elim (Bool-cases (leb_ℤ snap.price (pos 0))) [
  | inl worthless ↦ rw (worthless, priced_buy) tt
  | inr worth ↦ elim (Bool-cases (leb_ℤ (quot target.buy_amount snap.price) (pos 0))) [
    | inl small ↦ rw (worth, small, priced_buy) tt
    | inr enough ↦
        let (p, q, at_price, shares, some_shares, within) =
          quot_positive target.buy_amount snap.price worth enough in
        rw (worth, enough, priced_buy)
          (
            record {
              price = p;
              quantity = q;
              snapshot = snap;
              last = refl;
              signal = rw shares refl;
              at_price = at_price;
              positive = some_shares;
              within = within;
            },
            tt,
          )
  ]
]

-- What is checked before the stock of a target is bought.
pub record IsBuy (s : ThemeStrategy) (rule : ThemeRule) (sig : TradeSignal) : Type 0 where
  pub target : BuyTarget
  pub stock : ThemeStock
  pub of_rule : Elem target rule.buy_targets
  pub ranked : find_stock s.themes rule.theme_name target.rank ≡ some stock
  pub not_held : is_held (get_holding "" stock.code s.balances) ≡ false
  pub no_order : has_open_order "" stock.code s.orders ≡ false
  pub affordable : IsAffordable target stock.code (get stock.code s.prices) sig

target_buy-IsBuy :
    (s : ThemeStrategy) (rule : ThemeRule) (target : BuyTarget)
    → Elem target rule.buy_targets
    → All (IsBuy s rule) (target_buy s rule target)
unfolding target_buy stock_buy
target_buy-IsBuy s rule target listed =
    elim (Option-cases (find_stock s.themes rule.theme_name target.rank)) [
      | inl nowhere ↦ rw (nowhere, target_buy) tt
      | inr (stock, ranked) ↦ elim (Bool-cases (is_held (get_holding "" stock.code s.balances))) [
        | inl held ↦ rw (ranked, target_buy, stock_buy, held) tt
        | inr free ↦ elim (Bool-cases (has_open_order "" stock.code s.orders)) [
          | inl ordered ↦ rw (ranked, target_buy, stock_buy, free, ordered) tt
          | inr idle ↦
              rw (ranked, target_buy, stock_buy, free, idle)
                (All-imp (IsAffordable target stock.code (get stock.code s.prices))
                  (priced_buy target stock.code (get stock.code s.prices))
                  (λ sig fits. record {
                    target = target;
                    stock = stock;
                    of_rule = listed;
                    ranked = ranked;
                    not_held = free;
                    no_order = idle;
                    affordable = fits;
                  })
                  (priced_buy-IsAffordable target stock.code (get stock.code s.prices)))
        ]
      ]
    ]

generate-IsBuy :
    (s : ThemeStrategy) (rule : ThemeRule) (targets : List BuyTarget)
    → ((target : BuyTarget) → Elem target targets → Elem target rule.buy_targets)
    → All (IsBuy s rule) (generate_buy_signals s rule targets)
unfolding generate_buy_signals
generate-IsBuy s rule [] listed = tt
generate-IsBuy s rule (target ∷ targets) listed =
    All-append (IsBuy s rule) (target_buy s rule target) (generate_buy_signals s rule targets)
      (target_buy-IsBuy s rule target (listed target (inl refl)))
      (generate-IsBuy s rule targets (λ t m. listed t (inr m)))

-- The condition holds of a stock and a snapshot that are there.
abbrev pub Met : ThemeStrategy → ThemeRule → RankCondition → Type 0
Met s rule cond =
    (stock : ThemeStock) × (snap : Snapshot) × (find_stock s.themes rule.theme_name cond.rank
      ≡ some stock)
    × (get stock.code s.prices ≡ some snap)
    × (pct_to_rate cond.min_pct ≤ℤ snap.change_rate)

check_condition-Met :
    (s : ThemeStrategy) (rule : ThemeRule) (cond : RankCondition)
    → check_condition s rule cond ≡ true
    → Met s rule cond
unfolding check_condition
check_condition-Met s rule cond h =
    elim (Option-cases (find_stock s.themes rule.theme_name cond.rank)) [
      | inl nowhere ↦ absurd (cc (rw (nowhere, check_condition) at h))
      | inr (stock, ranked) ↦ elim (Option-cases (get stock.code s.prices)) [
        | inl unseen ↦ absurd (cc (rw (ranked, unseen, check_condition) at h))
        | inr (snap, last) ↦
            let h' = rw (ranked, last, check_condition) at h in
            (stock, snap, ranked, last, ground arith)
      ]
    ]

check_conditions-Met :
    (s : ThemeStrategy) (rule : ThemeRule) (conds : List RankCondition)
    → check_conditions s rule conds ≡ true
    → All (Met s rule) conds
unfolding check_conditions
check_conditions-Met s rule [] h = tt
check_conditions-Met s rule (cond ∷ conds) h = (
  check_condition-Met s rule cond (ground arith),
  check_conditions-Met s rule conds (ground arith),
)

-- A buy signal of a rule that the tick concerns and whose conditions all hold.
abbrev pub RuleBuy : ThemeStrategy → List ThemeRule → String → TradeSignal → Type 0
RuleBuy s rules code sig =
    (rule : ThemeRule) × Elem rule rules
    × (is_stock_in_theme s.themes rule.theme_name code ≡ true)
    × All (Met s rule) rule.conditions
    × IsBuy s rule sig

pub rule_signals-RuleBuy :
    (s : ThemeStrategy) (rules : List ThemeRule) (code : String)
    → All (RuleBuy s rules code) (rule_signals s rules code)
unfolding rule_signals check_all_conditions
rule_signals-RuleBuy s [] code = tt
rule_signals-RuleBuy s (rule ∷ rules) code =
    let behind : All (RuleBuy s (rule ∷ rules) code) (rule_signals s rules code) =
      All-imp (RuleBuy s rules code) (rule_signals s rules code)
        (λ sig (r, m, a, b, c). (r, inr m, a, b, c)) (rule_signals-RuleBuy s rules code) in
    elim (Bool-cases
      (is_stock_in_theme s.themes rule.theme_name code && check_all_conditions s rule)) [
        | inr off ↦ rw (off, rule_signals) behind
        | inl on ↦
            let met : check_conditions s rule rule.conditions ≡ true = ground arith in
            let concerned : is_stock_in_theme s.themes rule.theme_name code ≡ true = ground arith in
            rw (on, rule_signals)
              (All-append (RuleBuy s (rule ∷ rules) code)
                (generate_buy_signals s rule rule.buy_targets) (rule_signals s rules code)
                (All-imp (IsBuy s rule) (generate_buy_signals s rule rule.buy_targets)
                  (λ sig b.
                    (rule, inl refl, concerned, check_conditions-Met s rule rule.conditions met, b))
                  (generate-IsBuy s rule rule.buy_targets (λ t m. m)))
                behind)
      ]
