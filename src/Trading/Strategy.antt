-- ===== src/Trading/Strategy.antt =====
-- internal/core/strategy/theme.go: the theme strategy. The texts of log calls and of the reasons of signals
-- are left out, and so is the reading of the theme file.
pub mod Buying
pub mod Exits
pub mod Thresholds
use custom_hts_legacy.Prelude.{
  ℕ, String, Bool, true, false, not, ◌&&◌, ◌||◌, Option, none, some, List, [], ◌∷◌, ◌++◌, ◌==◌,
  string_eq, if◌then◌else◌, length, ltb,
}
use custom_hts_legacy.Prelude.Int.{ℤ, pos, ◌-ℤ◌, ◌*ℤ◌, int64, quot, ltb_ℤ, leb_ℤ, int_eq}
use custom_hts_legacy.Prelude.Float.{Float64, scale, trunc_to_int64}
use custom_hts_legacy.Trading.Domain.{buy, sell, limit, market, TickEvent, TradeSignal}
use custom_hts_legacy.Trading.Prices.{Snapshot, Store, get}
use custom_hts_legacy.Trading.Orders.{Tracker, has_open_order}
use custom_hts_legacy.Trading.Balances.{HoldingState, Manager, get_holding, find_holding}

pub record ThemeStock : Type 0 where
  pub rank : ℤ
  pub code : String
  pub name : String

pub record ThemeGroup : Type 0 where
  pub name : String
  pub stocks : List ThemeStock

pub record RankCondition : Type 0 where
  pub rank : ℤ
  pub min_pct : Float64

pub record BuyTarget : Type 0 where
  pub rank : ℤ
  pub buy_amount : ℤ

pub record ThemeRule : Type 0 where
  pub theme_name : String
  pub conditions : List RankCondition
  pub buy_targets : List BuyTarget
  pub profit_pct : Float64
  pub loss_pct : Float64

-- The strategy with the stores that it reads.
pub record ThemeStrategy : Type 0 where
  pub themes : List ThemeGroup
  pub rules : List ThemeRule
  pub prices : Store
  pub orders : Tracker
  pub balances : Manager

unfoldable pub pct_to_rate : Float64 → ℤ
pct_to_rate pct = trunc_to_int64 (scale pct 10000)

unfoldable pub has_code : List ThemeStock → String → Bool
has_code [] code = false
has_code (s ∷ stocks) code = s.code == code || has_code stocks code

unfoldable pub is_stock_in_theme : List ThemeGroup → String → String → Bool
unfolding has_code
is_stock_in_theme [] theme_name code = false
is_stock_in_theme (g ∷ groups) theme_name code =
    (g.name == theme_name && has_code g.stocks code) || is_stock_in_theme groups theme_name code

unfoldable pub stock_of_rank : List ThemeStock → ℤ → Option ThemeStock
stock_of_rank [] rank = none
stock_of_rank (s ∷ stocks) rank = if s.rank == rank then some s else stock_of_rank stocks rank

unfoldable pub find_stock : List ThemeGroup → String → ℤ → Option ThemeStock
unfolding stock_of_rank
find_stock [] theme_name rank = none
find_stock (g ∷ groups) theme_name rank =
    let rest = find_stock groups theme_name rank in
    if g.name == theme_name
    then (elim (stock_of_rank g.stocks rank) [ some s ↦ some s | none ↦ rest ])
    else rest

unfoldable pub check_condition : ThemeStrategy → ThemeRule → RankCondition → Bool
unfolding find_stock pct_to_rate get
check_condition s rule cond = elim (find_stock s.themes rule.theme_name cond.rank) [
  | none ↦ false
  | some stock ↦ elim (get stock.code s.prices) [
    | none ↦ false
    | some snap ↦ not (ltb_ℤ snap.change_rate (pct_to_rate cond.min_pct))
  ]
]

unfoldable pub check_conditions : ThemeStrategy → ThemeRule → List RankCondition → Bool
unfolding check_condition
check_conditions s rule [] = true
check_conditions s rule (cond ∷ conds) =
    check_condition s rule cond && check_conditions s rule conds

unfoldable pub check_all_conditions : ThemeStrategy → ThemeRule → Bool
unfolding check_conditions
check_all_conditions s rule = check_conditions s rule rule.conditions

abbrev pub is_held : Option HoldingState → Bool
is_held none = false
is_held (some h) = ltb_ℤ (pos 0) h.quantity

abbrev pub buy_signal : String → ℤ → ℤ → TradeSignal
buy_signal code quantity price = record {
  account_id = "";
  code = code;
  side = buy;
  type = limit;
  quantity = quantity;
  price = price;
}

-- The guards on the price and the quantity.
unfoldable pub priced_buy : BuyTarget → String → Option Snapshot → List TradeSignal
unfolding quot
priced_buy target code none = []
priced_buy target code (some snap) =
    let qty = quot target.buy_amount snap.price in
    if leb_ℤ snap.price (pos 0)
    then []
    else (if leb_ℤ qty (pos 0) then [] else buy_signal code qty snap.price ∷ [])

unfoldable pub stock_buy : ThemeStrategy → BuyTarget → ThemeStock → List TradeSignal
unfolding priced_buy get get_holding has_open_order
stock_buy s target stock =
    if is_held (get_holding "" stock.code s.balances)
    then []
    else (if has_open_order "" stock.code s.orders
        then []
        else priced_buy target stock.code (get stock.code s.prices))

unfoldable pub target_buy : ThemeStrategy → ThemeRule → BuyTarget → List TradeSignal
unfolding stock_buy find_stock
target_buy s rule target = elim (find_stock s.themes rule.theme_name target.rank) [
  | none ↦ []
  | some stock ↦ stock_buy s target stock
]

-- `generateBuySignals`, over the targets of the rule.
unfoldable pub generate_buy_signals : ThemeStrategy → ThemeRule → List BuyTarget → List TradeSignal
unfolding target_buy
generate_buy_signals s rule [] = []
generate_buy_signals s rule (target ∷ targets) =
    target_buy s rule target ++ generate_buy_signals s rule targets

unfoldable pub is_target : List ThemeGroup → String → List BuyTarget → String → Bool
unfolding find_stock
is_target themes theme_name [] code = false
is_target themes theme_name (target ∷ targets) code =
    let rest = is_target themes theme_name targets code in
    elim (find_stock themes theme_name target.rank) [
      | none ↦ rest
      | some stock ↦ if stock.code == code then true else rest
    ]

unfoldable pub find_rule_for_target : List ThemeGroup → List ThemeRule → String → Option ThemeRule
unfolding is_target
find_rule_for_target themes [] code = none
find_rule_for_target themes (rule ∷ rules) code =
    if is_target themes rule.theme_name rule.buy_targets code
    then some rule
    else find_rule_for_target themes rules code

-- The profit rate of a price on an average cost, at the scale of the rates.
unfoldable pub pnl_rate : ℤ → ℤ → ℤ
unfolding quot
pnl_rate price avg_cost = int64 (quot (int64 (int64 (price -ℤ avg_cost) *ℤ pos 10000)) avg_cost)

abbrev pub sell_signal : String → String → ℤ → TradeSignal
sell_signal account_id code quantity = record {
  account_id = account_id;
  code = code;
  side = sell;
  type = market;
  quantity = quantity;
  price = pos 0;
}

unfoldable pub exit_of_holding : TickEvent → ThemeRule → String → HoldingState → List TradeSignal
unfolding pnl_rate pct_to_rate
exit_of_holding tick rule account_id h =
    let rate = pnl_rate tick.price h.avg_cost in
    if leb_ℤ h.quantity (pos 0)
    then []
    else (if leb_ℤ h.avg_cost (pos 0)
        then []
        else (if leb_ℤ (pct_to_rate rule.profit_pct) rate
            then sell_signal account_id tick.code h.quantity ∷ []
            else (if leb_ℤ rate (int64 (pos 0 -ℤ pct_to_rate rule.loss_pct))
                then sell_signal account_id tick.code h.quantity ∷ []
                else [])))

unfoldable pub check_exit_conditions : ThemeStrategy → TickEvent → List TradeSignal
unfolding exit_of_holding find_rule_for_target find_holding
check_exit_conditions s tick = elim (find_rule_for_target s.themes s.rules tick.code) [
  | none ↦ []
  | some rule ↦ elim (find_holding tick.code s.balances) [
    | none ↦ []
    | some (account_id, h) ↦ exit_of_holding tick rule account_id h
  ]
]

-- The loop of `OnTick` over the rules.
unfoldable pub rule_signals : ThemeStrategy → List ThemeRule → String → List TradeSignal
unfolding is_stock_in_theme check_all_conditions generate_buy_signals
rule_signals s [] code = []
rule_signals s (rule ∷ rules) code =
    let rest = rule_signals s rules code in
    if is_stock_in_theme s.themes rule.theme_name code && check_all_conditions s rule
    then generate_buy_signals s rule rule.buy_targets ++ rest
    else rest

unfoldable pub on_tick : ThemeStrategy → TickEvent → List TradeSignal
unfolding rule_signals check_exit_conditions
on_tick s tick = rule_signals s s.rules tick.code ++ check_exit_conditions s tick

-- The float64 of `n / 2`.
abbrev pub halves : ℕ → Float64
halves n = record { negative = false; mantissa = n; left = 0; right = 1 }

abbrev pub default_rule : String → ThemeRule
default_rule theme_name = record {
  theme_name = theme_name;
  conditions =
      record { rank = pos 1; min_pct = halves 16 }
      ∷ record { rank = pos 2; min_pct = halves 10 }
      ∷ record { rank = pos 3; min_pct = halves 8 }
      ∷ [];
  buy_targets = record { rank = pos 1; buy_amount = pos 1000000 } ∷ [];
  profit_pct = halves 4;
  loss_pct = halves 3;
}

-- `buildDefaultRules`.
unfoldable pub build_default_rules : List ThemeGroup → List ThemeRule
build_default_rules [] = []
build_default_rules (g ∷ groups) =
    let rest = build_default_rules groups in
    if ltb (length g.stocks) 2 then rest else default_rule g.name ∷ rest
