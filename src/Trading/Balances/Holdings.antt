-- ===== src/Trading/Balances/Holdings.antt =====
-- The holdings of an account of internal/core/balancemgr: the average cost, and a buy that is sold again.
use custom_hts_legacy.Prelude.{
  ℕ, ◌+◌, ◌*◌, ◌/◌, ◌^◌, ◌≤◌, ◌<◌, String, ◌≡◌, refl, ◌∙◌, inl, inr, true, false, Option, none,
  some, List, arith, ◌==◌, string_eq, if◌then◌else◌, Option-cases, ==-self,
}
use custom_hts_legacy.Prelude.Int.{
  ℤ, pos, ◌+ℤ◌, ◌-ℤ◌, ◌*ℤ◌, ltb_ℤ, leb_ℤ, quot, int64, Fits64, int64-of_Fits64,
}
use custom_hts_legacy.Prelude.Wrap.{pos-*ℤ, pos-+ℤ, int64_undo_add, int64_undo_sub}
use custom_hts_legacy.Prelude.Maps.{
  lookup, insert, lookup-insert, lookup-insert_self, lookup-delete,
}
use custom_hts_legacy.Trading.Domain.{buy, sell, ExecEvent}
use custom_hts_legacy.Trading.Balances.{
  HoldingState, AccountBalance, Manager, is_exec_fill, amount, holding_or_new, add_to_holding,
  apply_buy, take_from_holding, apply_sell, apply_side, apply,
}
use custom_hts_legacy.Trading.Balances.Cash.{lookup-apply_own}
use native.Mathlib.Nat.{div-mul-le_self, lt-div-mul-add, div-le_self}

-- The sale that answers a buy: the same shares at the same price.
abbrev pub sold_again : ExecEvent → ExecEvent
sold_again exec = record exec { side = sell }

-- What is left of a holding of the bought code.
abbrev pub Kept : Option HoldingState → Option HoldingState → Type 0
Kept (some h) now =
    leb_ℤ h.quantity (pos 0) ≡ false
    → Fits64 h.quantity
    → (h' : HoldingState) × (now ≡ some h') × (h'.quantity ≡ h.quantity)
Kept none now = now ≡ none

abbrev pub Restored : ExecEvent → AccountBalance → AccountBalance → Type 0
Restored exec old new =
    (new.cash_balance ≡ old.cash_balance)
    × ((code : String)
        → (exec.code == code) ≡ false
        → lookup code new.holdings ≡ lookup code old.holdings)
    × Kept (lookup exec.code old.holdings) (lookup exec.code new.holdings)

abbrev taken : ExecEvent → Option HoldingState → Option HoldingState
taken exec none = none
taken exec (some h) =
    if leb_ℤ (int64 (h.quantity -ℤ exec.quantity)) (pos 0)
    then none
    else some (record h { quantity = int64 (h.quantity -ℤ exec.quantity) })

lookup-take_from_holding :
    (exec : ExecEvent) (holdings : List (String × HoldingState)) (code : String)
    → lookup code (take_from_holding exec holdings)
      ≡ (if exec.code == code then taken exec (lookup code holdings) else lookup code holdings)
unfolding take_from_holding
lookup-take_from_holding exec holdings code = elim (Option-cases (lookup exec.code holdings)) [
  | inl absent ↦ ground (arith, string_eq.beq_iff exec.code code)
  | inr (h, here) ↦
      let left = int64 (h.quantity -ℤ exec.quantity) in
      ground (
        arith,
        string_eq.beq_iff exec.code code,
        lookup-delete exec.code code holdings,
        lookup-insert exec.code code (record h { quantity = left }) holdings,
      )
]

taken_left :
    (exec : ExecEvent) (h : HoldingState) (left : ℤ)
    → int64 (h.quantity -ℤ exec.quantity) ≡ left
    → leb_ℤ left (pos 0) ≡ false
    → (h' : HoldingState) × (taken exec (some h) ≡ some h') × (h'.quantity ≡ left)
taken_left exec h left e some_left =
    let live : leb_ℤ (int64 (h.quantity -ℤ exec.quantity)) (pos 0) ≡ false = rw e some_left in
    (record h { quantity = int64 (h.quantity -ℤ exec.quantity) }, rw live refl, e)

taken_again :
    (exec : ExecEvent) (acct : AccountBalance)
    → Kept (lookup exec.code acct.holdings) (
        taken
          (sold_again exec)
          (some (add_to_holding exec.quantity (amount exec) (holding_or_new exec.code acct))))
unfolding add_to_holding holding_or_new
taken_again exec acct = elim (Option-cases (lookup exec.code acct.holdings)) [
  | inl absent ↦
      let none_left : int64 (int64 (pos 0 +ℤ exec.quantity) -ℤ exec.quantity) ≡ pos 0 =
        int64_undo_add (pos 0) exec.quantity (omega arith, omega arith) in
      rw (absent, holding_or_new, none_left) refl
  | inr (h, here) ↦
      rw (here, holding_or_new)
        (λ some_left fits.
          taken_left (sold_again exec) (add_to_holding exec.quantity (amount exec) h) h.quantity
            (int64_undo_add h.quantity exec.quantity fits) some_left)
]

round_trip :
    (exec : ExecEvent) (acct : AccountBalance)
    → Fits64 acct.cash_balance
    → Restored exec acct (apply_sell (sold_again exec) (apply_buy exec acct))
unfolding apply_sell apply_buy
round_trip exec acct fits = (
  int64_undo_sub acct.cash_balance (amount exec) fits,
  (λ code other.
      lookup-take_from_holding (sold_again exec) held code
      ∙ rw other (lookup-insert exec.code code bought acct.holdings ∙ rw other refl)),
  rw
      (
        lookup-take_from_holding (sold_again exec) held exec.code,
        ==-self exec.code,
        lookup-insert_self exec.code bought acct.holdings,
      )
      (taken_again exec acct),
)
  where
    bought : HoldingState
    bought = add_to_holding exec.quantity (amount exec) (holding_or_new exec.code acct)

    held : List (String × HoldingState)
    held = insert exec.code bought acct.holdings

-- A filled buy and then a filled sale of the same shares at the same price leave the account's cash as it
-- was, even if the amounts overflow, and its other holdings too. If the code was not held, it is not held
-- afterwards; if some of it was held, the same quantity of it is held.
pub buy_sell_restores :
    (exec : ExecEvent) (m : Manager) (acct : AccountBalance)
    → is_exec_fill exec.status ≡ true
    → exec.side ≡ buy
    → lookup exec.account_id m ≡ some acct
    → Fits64 acct.cash_balance
    → (acct' : AccountBalance) × (lookup exec.account_id (apply (sold_again exec) (apply exec m))
        ≡ some acct')
      × Restored exec acct acct'
unfolding apply_side
buy_sell_restores exec m acct fill bought here fits = (
  apply_sell (sold_again exec) (apply_buy exec acct),
  lookup-apply_own (sold_again exec) (apply exec m) (apply_buy exec acct) fill
      (lookup-apply_own exec m acct fill here ∙ rw bought refl),
  round_trip exec acct fits,
)

-- The average cost of a holding after a buy, without overflow, is what all its shares cost together divided
-- by their number, rounded down.
pub add_to_holding_average :
    (h : HoldingState) (cost held price bought : ℕ)
    → h.avg_cost ≡ pos cost
    → h.quantity ≡ pos held
    → cost * held + price * bought < 2 ^ 63
    → held + bought < 2 ^ 63
    → 0 < held + bought
    → (average : ℕ) × ((add_to_holding (pos bought) (int64 (pos price *ℤ pos bought)) h).avg_cost
        ≡ pos average)
      × (average * (held + bought) ≤ cost * held + price * bought)
      × (cost * held + price * bought < average * (held + bought) + (held + bought))
unfolding add_to_holding quot
add_to_holding_average h cost held price bought c q small few some_shares = (
  (cost * held + price * bought) / (held + bought),
  average_cost,
  div-mul-le_self (cost * held + price * bought) (held + bought),
  lt-div-mul-add some_shares,
)
  where
    fits_all : int64 (pos (held + bought)) ≡ pos (held + bought)
    fits_all = int64-of_Fits64 (pos (held + bought)) (omega arith, omega arith)

    fits_old : int64 (pos (cost * held)) ≡ pos (cost * held)
    fits_old = int64-of_Fits64 (pos (cost * held)) (omega arith, omega arith)

    fits_new : int64 (pos (price * bought)) ≡ pos (price * bought)
    fits_new = int64-of_Fits64 (pos (price * bought)) (omega arith, omega arith)

    fits_sum : int64 (pos (cost * held + price * bought)) ≡ pos (cost * held + price * bought)
    fits_sum = int64-of_Fits64 (pos (cost * held + price * bought)) (omega arith, omega arith)

    below : (cost * held + price * bought) / (held + bought) ≤ cost * held + price * bought
    below = div-le_self (cost * held + price * bought) (held + bought)

    fits_average :
        int64 (pos ((cost * held + price * bought) / (held + bought)))
        ≡ pos ((cost * held + price * bought) / (held + bought))
    fits_average = int64-of_Fits64 (pos _) (omega arith, omega arith)

    positive : ltb_ℤ (pos 0) (pos (held + bought)) ≡ true
    positive = ground arith

    average_cost :
        (add_to_holding (pos bought) (int64 (pos price *ℤ pos bought)) h).avg_cost
        ≡ pos ((cost * held + price * bought) / (held + bought))
    average_cost =
        rw
          (
            c,
            q,
            pos-*ℤ cost held,
            pos-*ℤ price bought,
            pos-+ℤ held bought,
            fits_all,
            fits_old,
            fits_new,
            pos-+ℤ (cost * held) (price * bought),
            fits_sum,
            positive,
            fits_average,
          )
          refl
