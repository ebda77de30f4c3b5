-- ===== src/Trading/Engine/Orders.antt =====
-- What internal/core/engine sends to the brokers.
use custom_hts_legacy.Prelude.{
  ℕ, ◌+◌, String, ◌≡◌, refl, sym, ap, ◌∙◌, Bool, Option, none, some, List, [], ◌∷◌, ◌++◌, string_eq,
}
use custom_hts_legacy.Prelude.Maps.{insert-insert}
use custom_hts_legacy.Trading.Domain.{TickEvent, TradeSignal}
use custom_hts_legacy.Trading.Prices.{update, snapshot_of}
use custom_hts_legacy.Trading.Engine.{
  ActionRequest, Engine, resolve_account, send_resolved, with_tick, tick_signals, dispatch_signal,
  dispatch_signals, handle_tick,
}
use mathlib.Core.List.{append-nil, append_assoc}

-- The number of the next signal.
abbrev pub counted : ℕ → List (Option TradeSignal) → ℕ
counted n [] = n
counted n (none ∷ sigs) = counted n sigs
counted n (some sig ∷ sigs) = counted (n + 1) sigs

module _ {B : Type 0} where
  -- What the signals send, from the signal of number `n` on.
  unfoldable pub sent :
      (ℕ → ℕ) → ℕ → List (Option TradeSignal) → Bool → List (String × B) → List (ActionRequest B)
  sent choices n [] dry_run accounts = []
  sent choices n (none ∷ sigs) dry_run accounts = sent choices n sigs dry_run accounts
  sent choices n (some sig ∷ sigs) dry_run accounts =
      send_resolved dry_run sig (resolve_account (choices n) sig.account_id accounts)
      ++ sent choices (n + 1) sigs dry_run accounts

  abbrev pub sent_from : Engine B → List (Option TradeSignal) → List (ActionRequest B)
  sent_from e sigs = sent e.choices e.dispatched sigs e.dry_run e.accounts

  -- What the dispatch of signals leaves of the engine.
  dispatch_signals-sent :
      (sigs : List (Option TradeSignal)) (e : Engine B)
      → dispatch_signals sigs e ≡ record e {
        actions = e.actions ++ sent_from e sigs;
        dispatched = counted e.dispatched sigs;
      }
  unfolding dispatch_signals dispatch_signal sent
  dispatch_signals-sent [] e = ap (λ l. record e { actions = l }) (sym (append-nil e.actions))
  dispatch_signals-sent (none ∷ sigs) e = dispatch_signals-sent sigs e
  dispatch_signals-sent (some sig ∷ sigs) e =
      dispatch_signals-sent sigs (dispatch_signal (some sig) e)
      ∙ ap (λ l. record e { actions = l; dispatched = counted (e.dispatched + 1) sigs })
          (append_assoc e.actions
            (send_resolved e.dry_run sig
              (resolve_account (e.choices e.dispatched) sig.account_id e.accounts))
            (sent e.choices (e.dispatched + 1) sigs e.dry_run e.accounts))

  -- With one account there is no choice.
  one_account :
      (i j : ℕ) (account_id : String) (account : String × B)
      → resolve_account i account_id (account ∷ []) ≡ resolve_account j account_id (account ∷ [])
  unfolding resolve_account
  one_account i j account_id (id, b) = refl

  sent_one :
      (choices : ℕ → ℕ) (m n : ℕ) (sigs : List (Option TradeSignal)) (dry_run : Bool)
      (account : String × B)
      → sent choices m sigs dry_run (account ∷ []) ≡ sent choices n sigs dry_run (account ∷ [])
  unfolding sent
  sent_one choices m n [] dry_run account = refl
  sent_one choices m n (none ∷ sigs) dry_run account = sent_one choices m n sigs dry_run account
  sent_one choices m n (some sig ∷ sigs) dry_run account =
      ap (λ r. send_resolved dry_run sig r ++ sent choices (m + 1) sigs dry_run (account ∷ []))
        (one_account (choices m) (choices n) sig.account_id account)
      ∙ ap
          (λ l.
            send_resolved dry_run sig (resolve_account (choices n) sig.account_id (account ∷ []))
            ++ l)
          (sent_one choices (m + 1) (n + 1) sigs dry_run account)

  ticked :
      (t : TickEvent) (e : Engine B)
      → handle_tick t e ≡ record (with_tick t e) {
        actions = e.actions ++ sent_from (with_tick t e) (tick_signals t (with_tick t e));
        dispatched = counted e.dispatched (tick_signals t (with_tick t e));
      }
  unfolding handle_tick update
  ticked t e = dispatch_signals-sent (tick_signals t (with_tick t e)) (with_tick t e)

  -- An engine with one account: the same tick twice sends every order of its signals twice. The tracker that the
  -- strategy asks for open orders is after the first tick what it was before: an order is tracked only when its
  -- result comes back.
  pub repeated_tick_repeats_orders :
      (t : TickEvent) (e : Engine B) (account : String × B)
      → e.accounts ≡ account ∷ []
      → let orders =
          sent e.choices e.dispatched (tick_signals t (with_tick t e)) e.dry_run (account ∷ []) in
        ((handle_tick t e).actions ≡ e.actions ++ orders)
        × ((handle_tick t e).orders ≡ e.orders)
        × ((handle_tick t (handle_tick t e)).actions ≡ (e.actions ++ orders) ++ orders)
  unfolding update
  repeated_tick_repeats_orders t e account one =
      let sigs = tick_signals t (with_tick t e) in
      let orders = sent e.choices e.dispatched sigs e.dry_run (account ∷ []) in
      let once : (handle_tick t e).actions ≡ e.actions ++ orders =
        ap (λ x. x.actions) (ticked t e)
        ∙ ap (λ accounts. e.actions ++ sent e.choices e.dispatched sigs e.dry_run accounts) one in
      let again : sent_from (with_tick t (handle_tick t e))
            (tick_signals t (with_tick t (handle_tick t e)))
          ≡ orders =
        ap (λ x. sent_from (with_tick t x) (tick_signals t (with_tick t x))) (ticked t e)
        ∙ ap
            (λ p.
              sent e.choices (counted e.dispatched sigs)
                (e.strategy.on_tick p e.orders e.balances t) e.dry_run e.accounts)
            (insert-insert t.code (snapshot_of t) e.prices)
        ∙ ap (λ accounts. sent e.choices (counted e.dispatched sigs) sigs e.dry_run accounts) one
        ∙ sent_one e.choices (counted e.dispatched sigs) e.dispatched sigs e.dry_run account in
      (
        once,
        ap (λ x. x.orders) (ticked t e),
        ap (λ x. x.actions) (ticked t (handle_tick t e))
            ∙ ap
                (λ l.
                  l
                  ++ sent_from (with_tick t (handle_tick t e))
                      (tick_signals t (with_tick t (handle_tick t e))))
                once
            ∙ ap (λ l. (e.actions ++ orders) ++ l) again,
      )
