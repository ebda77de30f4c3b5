-- ===== src/Trading/Engine.antt =====
-- internal/core/engine/engine.go and internal/core/ioworker: the select loop, whose events are handled one
-- at a time, and the worker that calls the brokers. A broker is of a type `B` of other code; what was sent
-- to the worker is kept in order. Log calls are left out.
pub mod Replay
pub mod Orders
use custom_hts_legacy.Prelude.{
  ℕ, ◌+◌, get_elem?, String, Bool, true, false, Option, none, some, List, [], ◌∷◌, ◌++◌, map, ◌==◌,
  string_eq, if◌then◌else◌, ◌⊎◌, inl, inr,
}
use custom_hts_legacy.Prelude.Maps.{lookup, insert}
use custom_hts_legacy.Trading.Domain.{
  Time, TickEvent, ExecEvent, TradeSignal, OrderRequest, OrderResponse, Order, Balance,
}
use custom_hts_legacy.Trading.Prices.{Store, update}
use custom_hts_legacy.Trading.Orders.{Tracker, register, reconcile}
use custom_hts_legacy.Trading.Balances.{Manager, set_baseline}
use custom_hts_legacy.Trading.Strategy.{ThemeGroup, ThemeRule}

-- An `error` of a broker.
abbrev pub Error : Type 0
Error = String

pub record RefreshRequest (B : Type 0) : Type 0 where
  pub account_id : String
  pub broker : B

pub record ActionRequest (B : Type 0) : Type 0 where
  pub account_id : String
  pub broker : B
  pub order : OrderRequest

pub record BaselineResult : Type 0 where
  pub account_id : String
  pub balance : Option Balance
  pub orders : Option (List Order)
  pub err : Option Error

pub record ActionResult : Type 0 where
  pub account_id : String
  pub response : Option OrderResponse
  pub err : Option Error

-- `strategy.Strategy`: it reads the stores. A signal may be nil.
pub record Strategy : Type 0 where
  pub on_tick : Store → Tracker → Manager → TickEvent → List (Option TradeSignal)
  pub on_exec : Store → Tracker → Manager → ExecEvent → List (Option TradeSignal)

abbrev pub noop_strategy : Strategy
noop_strategy = record { on_tick = λ p o b t. []; on_exec = λ p o b x. [] }

-- `ThemeStrategy` as a strategy.
abbrev pub theme_strategy : List ThemeGroup → List ThemeRule → Strategy
theme_strategy themes rules = record {
  on_tick = λ p o b tick. map some (
      custom_hts_legacy.Trading.Strategy.on_tick
        (record { themes = themes; rules = rules; prices = p; orders = o; balances = b }) tick);
  on_exec = λ p o b exec. [];
}

-- `choices` says which account comes first when the map of accounts is ranged over for the signal of a number, and
-- `dispatched` counts the signals.
pub record Engine (B : Type 0) : Type 0 where
  pub prices : Store
  pub orders : Tracker
  pub balances : Manager
  pub strategy : Strategy
  pub accounts : List (String × B)
  pub dry_run : Bool
  pub choices : ℕ → ℕ
  pub dispatched : ℕ
  pub refreshes : List (RefreshRequest B)
  pub actions : List (ActionRequest B)

-- Whether the status of the event is `StatusConnected`.
pub record StatusEvent : Type 0 where
  pub account_id : String
  pub connected : Bool

pub data Event : Type 0 where
  tick : TickEvent → Event
  exec : ExecEvent → Event
  status : StatusEvent → Event
  error : (account_id : String) (fatal : Bool) → Event
  baseline : Time → BaselineResult → Event
  result : Time → ActionResult → Event
  poll : Event

abbrev pub order_of_signal : TradeSignal → OrderRequest
order_of_signal sig = record {
  code = sig.code;
  side = sig.side;
  type = sig.type;
  quantity = sig.quantity;
  price = sig.price;
}

abbrev pub reconciled_orders : Time → String → Option (List Order) → Tracker → Tracker
reconciled_orders now account_id none t = t
reconciled_orders now account_id (some orders) t = reconcile now account_id orders t

module _ {B : Type 0} where
  -- The account that a `range` over the map visits first: Go chooses it anew at each range, here by a number that
  -- may be any; a number past the list stands for the account at its head.
  abbrev pub first_account : ℕ → List (String × B) → String × Option B
  first_account choice [] = ("", none)
  first_account choice ((id, broker) ∷ accounts) = elim (get_elem? accounts choice) [
    | none ↦ (id, some broker)
    | some (other, its_broker) ↦ (other, some its_broker)
  ]

  unfoldable pub resolve_account : ℕ → String → List (String × B) → String × Option B
  resolve_account choice account_id accounts =
      if account_id == ""
      then first_account choice accounts
      else (account_id, lookup account_id accounts)

  -- What a signal sends to the worker.
  unfoldable pub send_resolved : Bool → TradeSignal → String × Option B → List (ActionRequest B)
  send_resolved dry_run sig (account_id, none) = []
  send_resolved dry_run sig (account_id, some broker) =
      if dry_run
      then []
      else record { account_id = account_id; broker = broker; order = order_of_signal sig } ∷ []

  unfoldable pub dispatch_signal : Option TradeSignal → Engine B → Engine B
  unfolding send_resolved resolve_account
  dispatch_signal none e = e
  dispatch_signal (some sig) e = record e {
    actions =
        e.actions
        ++ send_resolved e.dry_run sig
            (resolve_account (e.choices e.dispatched) sig.account_id e.accounts);
    dispatched = e.dispatched + 1;
  }

  unfoldable pub dispatch_signals : List (Option TradeSignal) → Engine B → Engine B
  unfolding dispatch_signal
  dispatch_signals [] e = e
  dispatch_signals (sig ∷ sigs) e = dispatch_signals sigs (dispatch_signal sig e)

  -- The engine after the stores have taken the event, and what the strategy then signals.
  abbrev pub with_tick : TickEvent → Engine B → Engine B
  with_tick t e = record e { prices = update t e.prices }

  abbrev pub tick_signals : TickEvent → Engine B → List (Option TradeSignal)
  tick_signals t e = e.strategy.on_tick e.prices e.orders e.balances t

  unfoldable pub handle_tick : TickEvent → Engine B → Engine B
  unfolding dispatch_signals update
  handle_tick t e = dispatch_signals (tick_signals t (with_tick t e)) (with_tick t e)

  abbrev pub with_exec : ExecEvent → Engine B → Engine B
  with_exec x e = record e {
    orders = custom_hts_legacy.Trading.Orders.apply x e.orders;
    balances = custom_hts_legacy.Trading.Balances.apply x e.balances;
  }

  abbrev pub exec_signals : ExecEvent → Engine B → List (Option TradeSignal)
  exec_signals x e = e.strategy.on_exec e.prices e.orders e.balances x

  unfoldable pub handle_exec : ExecEvent → Engine B → Engine B
  unfolding dispatch_signals
  handle_exec x e = dispatch_signals (exec_signals x (with_exec x e)) (with_exec x e)

  unfoldable pub send_refresh : String → Option B → Engine B → Engine B
  send_refresh account_id none e = e
  send_refresh account_id (some broker) e = record e {
    refreshes = e.refreshes ++ (record { account_id = account_id; broker = broker } ∷ []);
  }

  unfoldable pub handle_status : StatusEvent → Engine B → Engine B
  unfolding send_refresh
  handle_status s e =
      if s.connected then send_refresh s.account_id (lookup s.account_id e.accounts) e else e

  -- `handleError` only logs.
  unfoldable pub handle_error : String → Bool → Engine B → Engine B
  handle_error account_id fatal e = e

  unfoldable pub handle_baseline : Time → BaselineResult → Engine B → Engine B
  unfolding set_baseline reconcile
  handle_baseline now b e = elim b.err [
    | some _ ↦ e
    | none ↦ record e {
      balances = set_baseline now b.account_id b.balance e.balances;
      orders = reconciled_orders now b.account_id b.orders e.orders;
    }
  ]

  unfoldable pub handle_result : Time → ActionResult → Engine B → Engine B
  unfolding register
  handle_result now r e = elim r.err [
    | some _ ↦ e
    | none ↦ record e { orders = register now r.account_id r.response e.orders }
  ]

  abbrev refresh_of : String × B → RefreshRequest B
  refresh_of (account_id, broker) = record { account_id = account_id; broker = broker }

  unfoldable pub handle_poll : Engine B → Engine B
  handle_poll e = record e { refreshes = e.refreshes ++ map refresh_of e.accounts }

  unfoldable pub handle : Event → Engine B → Engine B
  unfolding handle_tick handle_exec handle_status handle_error handle_baseline handle_result
      handle_poll
  handle (tick t) e = handle_tick t e
  handle (exec x) e = handle_exec x e
  handle (status s) e = handle_status s e
  handle (error account_id fatal) e = handle_error account_id fatal e
  handle (baseline now b) e = handle_baseline now b e
  handle (result now r) e = handle_result now r e
  handle poll e = handle_poll e

  -- `Run`, on the events in the order in which the select receives them.
  unfoldable pub run : List Event → Engine B → Engine B
  unfolding handle
  run [] e = e
  run (event ∷ events) e = run events (handle event e)

-- `handleRefresh` of the worker: what it sends, given what the broker's calls answer.
unfoldable pub handle_refresh :
    String → Error ⊎ Balance → Option (List Order) × Option Error → BaselineResult
handle_refresh account_id (inl err) answer = record {
  account_id = account_id;
  balance = none;
  orders = none;
  err = some err;
}
handle_refresh account_id (inr balance) (orders, err) = record {
  account_id = account_id;
  balance = some balance;
  orders = orders;
  err = none;
}

unfoldable pub handle_action : String → Option OrderResponse × Option Error → ActionResult
handle_action account_id (resp, err) = record {
  account_id = account_id;
  response = resp;
  err = err;
}
