-- ===== src/Trading/Engine/Replay.antt =====
-- The stores of internal/core/engine depend on the events alone.
use custom_hts_legacy.Prelude.{
  ◌≡◌, refl, ◌∙◌, inl, inr, Option, none, some, List, [], string_eq, ◌∷◌, Bool-cases, Option-cases,
}
use custom_hts_legacy.Prelude.Maps.{lookup}
use custom_hts_legacy.Trading.Domain.{TradeSignal}
use custom_hts_legacy.Trading.Prices.{Store, update}
use custom_hts_legacy.Trading.Orders.{Tracker, register, reconcile}
use custom_hts_legacy.Trading.Balances.{Manager, set_baseline}
use custom_hts_legacy.Trading.Engine.{
  Engine, Event, tick, exec, status, error, baseline, result, poll, StatusEvent, with_tick,
  tick_signals, with_exec, exec_signals, dispatch_signal, dispatch_signals, send_refresh,
  handle_tick, handle_exec, handle_status, handle_error, handle_baseline, handle_result,
  handle_poll, handle, run, reconciled_orders,
}

abbrev pub Stores : Type 0
Stores = Store × Tracker × Manager

abbrev pub stores : {B : Type 0} → Engine B → Stores
stores e = (e.prices, e.orders, e.balances)

-- What an event means for the stores, whatever the strategy, the accounts and the mode of the engine.
abbrev pub effect : Event → Stores → Stores
effect (tick t) (p, o, b) = (update t p, o, b)
effect (exec x) (p, o, b) =
    (p, custom_hts_legacy.Trading.Orders.apply x o, custom_hts_legacy.Trading.Balances.apply x b)
effect (status s) st = st
effect (error account_id fatal) st = st
effect (baseline now r) (p, o, b) = elim r.err [
  | some _ ↦ (p, o, b)
  | none ↦
      (p, reconciled_orders now r.account_id r.orders o, set_baseline now r.account_id r.balance b)
]
effect (result now r) (p, o, b) = elim r.err [
  | some _ ↦ (p, o, b)
  | none ↦ (p, register now r.account_id r.response o, b)
]
effect poll st = st

unfoldable pub replay : List Event → Stores → Stores
replay [] st = st
replay (event ∷ events) st = replay events (effect event st)

module _ {B : Type 0} where
  stores-dispatch_signals :
      (sigs : List (Option TradeSignal)) (e : Engine B)
      → stores (dispatch_signals sigs e) ≡ stores e
  unfolding dispatch_signals dispatch_signal
  stores-dispatch_signals [] e = refl
  stores-dispatch_signals (none ∷ sigs) e = stores-dispatch_signals sigs e
  stores-dispatch_signals (some sig ∷ sigs) e =
      stores-dispatch_signals sigs (dispatch_signal (some sig) e)

  stores-handle_status : (s : StatusEvent) (e : Engine B) → stores (handle_status s e) ≡ stores e
  unfolding handle_status send_refresh
  stores-handle_status s e = elim (Bool-cases s.connected) [
    | inr off ↦ rw (off, handle_status) refl
    | inl on ↦ elim (Option-cases (lookup s.account_id e.accounts)) [
      | inl absent ↦ rw (on, absent, handle_status, send_refresh) refl
      | inr (b, here) ↦ rw (on, here, handle_status, send_refresh) refl
    ]
  ]

  stores-handle : (event : Event) (e : Engine B) → stores (handle event e) ≡ effect event (stores e)
  unfolding handle handle_tick handle_exec handle_status handle_error handle_baseline handle_result
      handle_poll send_refresh
  stores-handle (tick t) e =
      stores-dispatch_signals (tick_signals t (with_tick t e)) (with_tick t e)
  stores-handle (exec x) e =
      stores-dispatch_signals (exec_signals x (with_exec x e)) (with_exec x e)
  stores-handle (status s) e = stores-handle_status s e
  stores-handle (error account_id fatal) e = refl
  stores-handle (baseline now r) e = elim (Option-cases r.err) [
    | inl fine ↦ rw (fine, handle_baseline) refl
    | inr (x, failed) ↦ rw (failed, handle_baseline) refl
  ]
  stores-handle (result now r) e = elim (Option-cases r.err) [
    | inl fine ↦ rw (fine, handle_result) refl
    | inr (x, failed) ↦ rw (failed, handle_result) refl
  ]
  stores-handle poll e = refl

  -- After any sequence of events, prices, orders and balances are what the events make of them, one after
  -- the other, in their order: neither the strategy and its signals, nor the accounts, nor the dry run
  -- have a part in it.
  pub stores-run :
      (events : List Event) (e : Engine B) → stores (run events e) ≡ replay events (stores e)
  unfolding run replay
  stores-run [] e = refl
  stores-run (event ∷ events) e =
      stores-run events (handle event e) ∙ rw (stores-handle event e) refl
