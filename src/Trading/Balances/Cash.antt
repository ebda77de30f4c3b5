-- ===== src/Trading/Balances/Cash.antt =====
-- The cash of an account of internal/core/balancemgr over a sequence of execution events.
use custom_hts_legacy.Prelude.{
  String, ◌≡◌, refl, sym, ap, ◌∙◌, inl, inr, true, false, ◌&&◌, some, List, [], ◌∷◌, ◌==◌,
  string_eq, if◌then◌else◌, Bool-cases, Option-cases, eq_of_==, ==-self,
}
use custom_hts_legacy.Prelude.Int.{
  ℤ, pos, ◌+ℤ◌, ◌-ℤ◌, ◌*ℤ◌, int64, Fits64, int64-of_Fits64, int64-Fits64,
}
use custom_hts_legacy.Prelude.Wrap.{
  int64-+ℤ, int64--ℤ_right, int64-+ℤ_right, +ℤ_assoc, -ℤ_as_+ℤ, +ℤ_zero,
}
use custom_hts_legacy.Prelude.Maps.{lookup, lookup-insert_self, lookup-insert_ne}
use custom_hts_legacy.Trading.Domain.{buy, sell, ExecEvent}
use custom_hts_legacy.Trading.Balances.{
  AccountBalance, Manager, is_exec_fill, apply_buy, apply_sell, apply_side, apply, get_cash,
}

-- A sequence of events, the first of the list first.
unfoldable pub applies : List ExecEvent → Manager → Manager
unfolding apply
applies [] m = m
applies (exec ∷ execs) m = applies execs (apply exec m)

-- What an event pays to the account: the integer, without overflow.
unfoldable pub paid : String → ExecEvent → ℤ
paid id exec =
    if is_exec_fill exec.status && exec.account_id == id
    then (if exec.side == buy
        then pos 0 -ℤ (exec.price *ℤ exec.quantity)
        else (if exec.side == sell then exec.price *ℤ exec.quantity else pos 0))
    else pos 0

unfoldable pub net : String → List ExecEvent → ℤ
unfolding paid
net id [] = pos 0
net id (exec ∷ execs) = paid id exec +ℤ net id execs

cash-apply_side :
    (exec : ExecEvent) (acct : AccountBalance)
    → is_exec_fill exec.status ≡ true
    → Fits64 acct.cash_balance
    → (apply_side exec acct).cash_balance ≡ int64 (acct.cash_balance +ℤ paid exec.account_id exec)
unfolding apply_side apply_buy apply_sell paid
cash-apply_side exec acct fill fits = elim (Bool-cases (exec.side == buy)) [
  | inl bought ↦
      rw (fill, ==-self exec.account_id, bought, apply_side, paid)
        (int64--ℤ_right acct.cash_balance (exec.price *ℤ exec.quantity)
          ∙ ap int64 (-ℤ_as_+ℤ acct.cash_balance (exec.price *ℤ exec.quantity)))
  | inr other ↦ elim (Bool-cases (exec.side == sell)) [
    | inl sold ↦
        rw (fill, ==-self exec.account_id, other, sold, apply_side, paid)
          (int64-+ℤ_right acct.cash_balance (exec.price *ℤ exec.quantity))
    | inr neither ↦
        rw (fill, ==-self exec.account_id, other, neither, apply_side, paid)
          (sym (rw (+ℤ_zero acct.cash_balance) (int64-of_Fits64 acct.cash_balance fits)))
  ]
]

pub lookup-apply_other :
    (exec : ExecEvent) (m : Manager) (id : String)
    → (exec.account_id == id) ≡ false
    → lookup id (apply exec m) ≡ lookup id m
unfolding apply
lookup-apply_other exec m id other = elim (Bool-cases (is_exec_fill exec.status)) [
  | inr idle ↦ rw (idle, apply) refl
  | inl fill ↦ elim (Option-cases (lookup exec.account_id m)) [
    | inl absent ↦ rw (fill, absent, apply) refl
    | inr (a, here) ↦
        rw (fill, here, apply) (lookup-insert_ne exec.account_id id (apply_side exec a) m other)
  ]
]

pub lookup-apply_own :
    (exec : ExecEvent) (m : Manager) (acct : AccountBalance)
    → is_exec_fill exec.status ≡ true
    → lookup exec.account_id m ≡ some acct
    → lookup exec.account_id (apply exec m) ≡ some (apply_side exec acct)
unfolding apply
lookup-apply_own exec m acct fill here =
    rw (fill, here, apply) (lookup-insert_self exec.account_id (apply_side exec acct) m)

-- One event on the account `id`.
cash-apply :
    (exec : ExecEvent) (m : Manager) (id : String) (acct : AccountBalance)
    → lookup id m ≡ some acct
    → Fits64 acct.cash_balance
    → (acct' : AccountBalance) × (lookup id (apply exec m) ≡ some acct')
      × (acct'.cash_balance ≡ int64 (acct.cash_balance +ℤ paid id exec))
unfolding apply paid
cash-apply exec m id acct here fits = elim (Bool-cases (is_exec_fill exec.status)) [
  | inr idle ↦ (acct, rw (idle, apply) here, same (rw (idle, paid) refl))
  | inl fill ↦ elim (Bool-cases (exec.account_id == id)) [
    | inl mine ↦
        let e = eq_of_== exec.account_id id mine in
        (
          apply_side exec acct,
          rw (sym e) (lookup-apply_own exec m acct fill (rw e here)),
          rw (sym e) (cash-apply_side exec acct fill fits),
        )
    | inr other ↦
        (acct, lookup-apply_other exec m id other ∙ here, same (rw (fill, other, paid) refl))
  ]
]
  where
    same : paid id exec ≡ pos 0 → acct.cash_balance ≡ int64 (acct.cash_balance +ℤ paid id exec)
    same zero = sym (rw (zero, +ℤ_zero acct.cash_balance) (int64-of_Fits64 acct.cash_balance fits))

-- The cash of an account after any sequence of execution events, in any order and for any accounts, is the
-- cash before, less what its filled and partly filled buys cost, plus what its sells brought, wrapped to 64
-- bits only once: overflows on the way do not matter. Other events do not count.
pub applies-cash :
    (execs : List ExecEvent) (m : Manager) (id : String) (acct : AccountBalance)
    → lookup id m ≡ some acct
    → Fits64 acct.cash_balance
    → get_cash id (applies execs m) ≡ int64 (acct.cash_balance +ℤ net id execs)
unfolding applies net get_cash
applies-cash [] m id acct here fits =
    rw (here, get_cash, +ℤ_zero acct.cash_balance) (sym (int64-of_Fits64 acct.cash_balance fits))
applies-cash (exec ∷ execs) m id acct here fits =
    let (acct', at, e) = cash-apply exec m id acct here fits in
    applies-cash execs (apply exec m) id acct' at
      (rw e (int64-Fits64 (acct.cash_balance +ℤ paid id exec)))
    ∙ rw e (int64-+ℤ (acct.cash_balance +ℤ paid id exec) (net id execs))
    ∙ ap int64 (+ℤ_assoc acct.cash_balance (paid id exec) (net id execs))
