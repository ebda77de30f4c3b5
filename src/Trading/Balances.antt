-- ===== src/Trading/Balances.antt =====
-- internal/core/balancemgr/manager.go: the balances of accounts. Log calls are left out; int64 arithmetic
-- wraps around.
pub mod Cash
pub mod Holdings
use custom_hts_legacy.Prelude.{
  String, Bool, true, false, not, ◌||◌, Option, none, some, List, [], ◌∷◌, ◌==◌, string_eq,
  if◌then◌else◌, is_some,
}
use custom_hts_legacy.Prelude.Int.{ℤ, pos, ◌+ℤ◌, ◌-ℤ◌, ◌*ℤ◌, int64, quot, ltb_ℤ, leb_ℤ}
use custom_hts_legacy.Prelude.Maps.{lookup, insert, delete}
use custom_hts_legacy.Trading.Domain.{Time, buy, sell, ExecEvent, Holding, Balance}

pub record HoldingState : Type 0 where
  pub code : String
  pub name : String
  pub quantity : ℤ
  pub avg_cost : ℤ

pub record AccountBalance : Type 0 where
  pub account_id : String
  pub cash_balance : ℤ
  pub total_asset : ℤ
  pub holdings : List (String × HoldingState)
  pub baseline_at : Time

-- The manager's map, from account ids to balances.
abbrev pub Manager : Type 0
Manager = List (String × AccountBalance)

-- The loop of `SetBaseline` over the holdings.
unfoldable pub holdings_of :
    List Holding → List (String × HoldingState) → List (String × HoldingState)
holdings_of [] acc = acc
holdings_of (h ∷ hs) acc = holdings_of hs (
    insert h.code
      (record { code = h.code; name = h.name; quantity = h.quantity; avg_cost = h.avg_cost }) acc)

-- `SetBaseline`, at time `now`; the balance is nil or a balance.
unfoldable pub set_baseline : Time → String → Option Balance → Manager → Manager
unfolding holdings_of
set_baseline now account_id none m = m
set_baseline now account_id (some bal) m =
    insert account_id
      (record {
        account_id = account_id;
        cash_balance = bal.cash_balance;
        total_asset = bal.total_asset;
        holdings = holdings_of bal.holdings [];
        baseline_at = now;
      })
      m

unfoldable pub is_exec_fill : String → Bool
is_exec_fill status = status == "filled" || status == "partial"

abbrev pub amount : ExecEvent → ℤ
amount exec = int64 (exec.price *ℤ exec.quantity)

-- `getOrCreateHolding`.
unfoldable pub holding_or_new : String → AccountBalance → HoldingState
holding_or_new code acct = elim (lookup code acct.holdings) [
  | none ↦ record { code = code; name = ""; quantity = pos 0; avg_cost = pos 0 }
  | some h ↦ h
]

-- A buy of `quantity` shares for `paid`.
unfoldable pub add_to_holding : ℤ → ℤ → HoldingState → HoldingState
add_to_holding quantity paid h =
    let total = int64 (h.avg_cost *ℤ h.quantity) in
    let held = int64 (h.quantity +ℤ quantity) in
    record h {
      quantity = held;
      avg_cost =
          if ltb_ℤ (pos 0) held then int64 (quot (int64 (total +ℤ paid)) held) else h.avg_cost;
    }

unfoldable pub apply_buy : ExecEvent → AccountBalance → AccountBalance
unfolding add_to_holding holding_or_new
apply_buy exec acct = record acct {
  cash_balance = int64 (acct.cash_balance -ℤ amount exec);
  holdings =
      insert exec.code (add_to_holding exec.quantity (amount exec) (holding_or_new exec.code acct))
        acct.holdings;
}

unfoldable pub take_from_holding :
    ExecEvent → List (String × HoldingState) → List (String × HoldingState)
take_from_holding exec holdings = elim (lookup exec.code holdings) [
  | none ↦ holdings
  | some h ↦
      let left = int64 (h.quantity -ℤ exec.quantity) in
      if leb_ℤ left (pos 0)
      then delete exec.code holdings
      else insert exec.code (record h { quantity = left }) holdings
]

unfoldable pub apply_sell : ExecEvent → AccountBalance → AccountBalance
unfolding take_from_holding
apply_sell exec acct = record acct {
  cash_balance = int64 (acct.cash_balance +ℤ amount exec);
  holdings = take_from_holding exec acct.holdings;
}

unfoldable pub apply_side : ExecEvent → AccountBalance → AccountBalance
unfolding apply_buy apply_sell
apply_side exec acct =
    if exec.side == buy
    then apply_buy exec acct
    else (if exec.side == sell then apply_sell exec acct else acct)

-- `Apply`, which changes the account's balance in place.
unfoldable pub apply : ExecEvent → Manager → Manager
unfolding is_exec_fill apply_side
apply exec m =
    if is_exec_fill exec.status
    then (elim (lookup exec.account_id m) [
      | none ↦ m
      | some acct ↦ insert exec.account_id (apply_side exec acct) m
    ])
    else m

-- The search over all accounts, in the order of a range.
unfoldable pub find_holding : String → Manager → Option (String × HoldingState)
find_holding code [] = none
find_holding code ((id, acct) ∷ m) = elim (lookup code acct.holdings) [
  | none ↦ find_holding code m
  | some h ↦ some (id, h)
]

abbrev holding_only : Option (String × HoldingState) → Option HoldingState
holding_only none = none
holding_only (some (id, h)) = some h

-- `GetHolding`: with the empty account, of the first account that has the code.
unfoldable pub get_holding : String → String → Manager → Option HoldingState
unfolding find_holding
get_holding account_id code m =
    if account_id == ""
    then holding_only (find_holding code m)
    else (elim (lookup account_id m) [ none ↦ none | some acct ↦ lookup code acct.holdings ])

-- `FindHoldingWithAccount` is `find_holding`.
unfoldable pub get_cash : String → Manager → ℤ
get_cash account_id m = elim (lookup account_id m) [ none ↦ pos 0 | some acct ↦ acct.cash_balance ]

unfoldable pub has_baseline : String → Manager → Bool
has_baseline account_id m = is_some (lookup account_id m)
