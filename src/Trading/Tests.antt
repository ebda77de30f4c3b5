-- ===== src/Trading/Tests.antt =====
-- Runs of the models of the trading core on concrete events.
use custom_hts_legacy.Prelude.{
  ℕ, String, ◌≡◌, refl, ◌⊎◌, true, false, some, List, [], ◌∷◌, arith, string_eq, All,
}
use custom_hts_legacy.Prelude.Int.{ℤ, pos, ◌+ℤ◌, ◌-ℤ◌, ◌*ℤ◌, int64, int_eq}
use custom_hts_legacy.Prelude.Float.{Float64, round_to_int64, trunc_to_int64, scale}
use custom_hts_legacy.Prelude.Maps.{lookup, insert, delete}
use custom_hts_legacy.Trading.Domain.{
  TickEvent, ExecEvent, OrderResponse, Order, buy, sell, status_open, status_filled,
}
use custom_hts_legacy.Trading.Prices.{updates}
use custom_hts_legacy.Trading.Orders.{
  Tracker, TrackedOrder, is_terminal, register, apply, reconcile, order_of_exec, has_open_order,
}
use custom_hts_legacy.Trading.Orders.Lifecycle.{applies, applies-terminal, register_undoes_fill}
use custom_hts_legacy.Trading.Orders.Reconciling.{reconciled, lookup-reconcile}
use custom_hts_legacy.Trading.Balances.{
  AccountBalance, HoldingState, Manager, get_cash, add_to_holding,
}
use custom_hts_legacy.Trading.Balances.Cash.{net, applies-cash}
use custom_hts_legacy.Trading.Balances.Holdings.{Restored, sold_again, buy_sell_restores}
use custom_hts_legacy.Trading.Strategy.{
  ThemeStrategy, ThemeGroup, halves, pct_to_rate, pnl_rate, build_default_rules, on_tick,
  default_rule, exit_of_holding,
}
use custom_hts_legacy.Trading.Strategy.Buying.{RuleBuy}
use custom_hts_legacy.Trading.Strategy.Exits.{IsExit, on_tick_justified}
use custom_hts_legacy.Trading.Strategy.Thresholds.{default_rule_keeps}
use custom_hts_legacy.Trading.Engine.{
  ActionRequest, Engine, Event, tick, exec, poll, theme_strategy, tick_signals, with_tick,
  handle_tick, run,
}
use custom_hts_legacy.Trading.Engine.Replay.{stores, replay, stores-run}
use custom_hts_legacy.Trading.Engine.Orders.{sent, repeated_tick_repeats_orders}

abbrev fill : ExecEvent
fill = record {
  account_id = "kis-main";
  broker = "kis";
  order_id = "0001";
  code = "005930";
  side = buy;
  price = pos 72000;
  quantity = pos 10;
  remain_qty = pos 0;
  total_qty = pos 10;
  status = "filled";
  exec_time = 5;
  received_at = 6;
}

abbrev late_accept : ExecEvent
late_accept = record fill {
  status = "accepted";
  quantity = pos 0;
  remain_qty = pos 10;
  received_at = 7;
}

abbrev response : OrderResponse
response = record {
  order_id = "0001";
  code = "005930";
  side = buy;
  type = "limit";
  quantity = pos 10;
  price = pos 72000;
  status = "open";
  created_at = 4;
}

abbrev filled_order : TrackedOrder
filled_order = record (order_of_exec fill) {
  price = pos 72000;
  filled_qty = pos 10;
  status = status_filled;
  updated_at = 6;
}

applied : lookup "0001" (apply fill []) ≡ some filled_order
unfolding apply lookup insert int64 ◌-ℤ◌
applied = refl

applies-terminal_example :
    lookup "0001" (applies (late_accept ∷ fill ∷ []) (apply fill [])) ≡ some filled_order
unfolding is_terminal
applies-terminal_example =
    applies-terminal (late_accept ∷ fill ∷ []) (apply fill []) "0001" filled_order applied refl

register_undoes_fill_example :
    let t' = register 8 "kis-main" (some response) (apply fill []) in
    ((o : TrackedOrder) × (lookup "0001" (apply fill []) ≡ some o) × (o.status ≡ status_filled))
    × ((o : TrackedOrder) × (lookup "0001" t' ≡ some o)
        × (o.status ≡ status_open)
        × (o.filled_qty ≡ pos 0)
        × (o.remain_qty ≡ pos 10))
    × (has_open_order "" "005930" t' ≡ true)
unfolding lookup
register_undoes_fill_example = register_undoes_fill 8 "kis-main" fill response [] refl refl refl

abbrev whole : ℕ → Float64
whole n = record { negative = false; mantissa = n; left = 0; right = 0 }

abbrev open_order : Order
open_order = record {
  order_id = "0002";
  code = "000660";
  side = sell;
  type = "limit";
  quantity = whole 7;
  filled_qty = whole 2;
  price = whole 100000;
  avg_fill_price = whole 0;
  status = "partial";
  created_at = 3;
  updated_at = 3;
}

-- Order 0001 is open and not in the snapshot, so it is dropped; 0002 is added.
abbrev one_open : Tracker
one_open = ("0001", record filled_order { status = status_open }) ∷ []

remaining : Tracker → List (String × ℤ)
remaining [] = []
remaining ((id, o) ∷ t) = (id, o.remain_qty) ∷ remaining t

synced : remaining (reconcile 9 "kis-main" (open_order ∷ []) one_open) ≡ ("0002", pos 5) ∷ []
unfolding remaining reconcile lookup insert delete int64 ◌-ℤ◌ round_to_int64
synced = refl

lookup-reconcile_example :
    lookup "0001" (reconcile 9 "kis-main" (open_order ∷ []) one_open)
    ≡ reconciled 9 "kis-main" (open_order ∷ []) "0001" (lookup "0001" one_open)
lookup-reconcile_example = lookup-reconcile 9 "kis-main" (open_order ∷ []) one_open "0001"

abbrev account : AccountBalance
account = record {
  account_id = "kis-main";
  cash_balance = pos 1000000;
  total_asset = pos 1000000;
  holdings =
      ("005930", record { code = "005930"; name = ""; quantity = pos 5; avg_cost = pos 60000 })
      ∷ [];
  baseline_at = 1;
}

abbrev accounts : Manager
accounts = ("kis-main", account) ∷ []

abbrev half_sold : ExecEvent
half_sold = record fill { side = sell; quantity = pos 5; price = pos 80000; status = "partial" }

applies-cash_example :
    get_cash "kis-main" (
      custom_hts_legacy.Trading.Balances.Cash.applies
        (fill ∷ half_sold ∷ late_accept ∷ [])
        accounts)
    ≡ int64 (pos 1000000 +ℤ net "kis-main" (fill ∷ half_sold ∷ late_accept ∷ []))
unfolding lookup
applies-cash_example =
    applies-cash (fill ∷ half_sold ∷ late_accept ∷ []) accounts "kis-main" account refl
      (omega arith, omega arith)

cash_left : int64 (pos 1000000 +ℤ net "kis-main" (fill ∷ half_sold ∷ late_accept ∷ [])) ≡ pos 680000
unfolding net int64 ◌+ℤ◌ ◌-ℤ◌ ◌*ℤ◌ custom_hts_legacy.Trading.Balances.is_exec_fill
cash_left = refl

buy_sell_restores_example :
    (acct : AccountBalance) × (lookup "kis-main" (
        custom_hts_legacy.Trading.Balances.apply
          (sold_again fill)
          (custom_hts_legacy.Trading.Balances.apply fill accounts))
      ≡ some acct)
    × Restored fill account acct
unfolding lookup custom_hts_legacy.Trading.Balances.is_exec_fill
buy_sell_restores_example =
    buy_sell_restores fill accounts account refl refl refl (omega arith, omega arith)

tick_of : String → ℕ → ℕ → TickEvent
tick_of code price rate = record {
  code = code;
  price = pos price;
  volume = pos 1;
  acc_volume = pos 1;
  change = pos 0;
  change_rate = pos rate;
  trade_time = "090001";
  received_at = 1;
}

-- 2.0% is 20000 at the scale of the rates, and 1.5% is 15000.
rates : (pct_to_rate (halves 4) ≡ pos 20000) × (pct_to_rate (halves 3) ≡ pos 15000)
unfolding pct_to_rate trunc_to_int64 int64 scale
rates = (refl, refl)

gain : pnl_rate (pos 102) (pos 100) ≡ pos 200
unfolding pnl_rate int64 ◌-ℤ◌ ◌*ℤ◌
gain = refl

abbrev theme : ThemeGroup
theme = record {
  name = "chips";
  stocks =
      record { rank = pos 1; code = "005930"; name = "a" }
      ∷ record { rank = pos 2; code = "000660"; name = "b" }
      ∷ record { rank = pos 3; code = "042700"; name = "c" }
      ∷ [];
}

abbrev rising : List TickEvent
rising = tick_of "000660" 100000 60000 ∷ tick_of "042700" 50000 45000 ∷ []

abbrev chips : ThemeStrategy
chips = record {
  themes = theme ∷ [];
  rules = build_default_rules (theme ∷ []);
  prices = updates (tick_of "005930" 71000 90000 ∷ rising) [];
  orders = [];
  balances = [];
}

on_tick_justified_example :
    All
      (λ sig.
        RuleBuy chips chips.rules "005930" sig ⊎ IsExit chips (tick_of "005930" 71000 90000) sig)
      (on_tick chips (tick_of "005930" 71000 90000))
unfolding tick_of
on_tick_justified_example = on_tick_justified chips (tick_of "005930" 71000 90000)

-- A broker is a number.
abbrev engine : Engine ℕ
engine = record {
  prices = updates rising [];
  orders = [];
  balances = accounts;
  strategy = theme_strategy (theme ∷ []) (build_default_rules (theme ∷ []));
  accounts = ("kis-main", 1) ∷ [];
  dry_run = false;
  choices = λ n. n;
  dispatched = 0;
  refreshes = [];
  actions = [];
}

abbrev morning : List Event
morning = tick (tick_of "005930" 71000 90000) ∷ exec fill ∷ poll ∷ []

stores-run_example : stores (run morning engine) ≡ replay morning (stores engine)
stores-run_example = stores-run morning engine

-- An engine whose account holds nothing.
abbrev fresh_engine : Engine ℕ
fresh_engine = record engine { balances = [] }

-- The order that the tick sends.
abbrev first_order : ActionRequest ℕ
first_order = record {
  account_id = "kis-main";
  broker = 1;
  order = record {
    code = "005930";
    side = buy;
    type = "limit";
    quantity = pos 14;
    price = pos 71000;
  };
}

repeated_tick_repeats_orders_example :
    let t = tick_of "005930" 71000 90000 in
    ((handle_tick t fresh_engine).actions ≡ first_order ∷ [])
    × ((handle_tick t fresh_engine).orders ≡ [])
    × ((handle_tick t (handle_tick t fresh_engine)).actions ≡ first_order ∷ first_order ∷ [])
unfolding sent on_tick tick_of build_default_rules lookup custom_hts_legacy.Trading.Prices.update
    insert updates trunc_to_int64 int64 scale custom_hts_legacy.Trading.Engine.send_resolved
    custom_hts_legacy.Trading.Engine.resolve_account
repeated_tick_repeats_orders_example =
    repeated_tick_repeats_orders (tick_of "005930" 71000 90000) fresh_engine ("kis-main", 1) refl

-- The price has doubled, and the holding is kept.
default_rule_keeps_example :
    exit_of_holding
      (tick_of "005930" 142000 300000)
      (default_rule "chips")
      "kis-main"
      (record { code = "005930"; name = ""; quantity = pos 5; avg_cost = pos 71000 })
    ≡ []
unfolding tick_of
default_rule_keeps_example =
    default_rule_keeps "chips" "kis-main" (tick_of "005930" 142000 300000)
      (record { code = "005930"; name = ""; quantity = pos 5; avg_cost = pos 71000 }) 142000 71000
      refl refl (omega arith) (omega arith) (omega arith)
