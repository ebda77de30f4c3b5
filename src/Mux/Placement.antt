-- ===== src/Mux/Placement.antt =====
-- mux.go of internal/core/pkg/wsrefact_v6: the choice of a worker for a new subscription.
use custom_hts_legacy.Prelude.{
  ℕ, suc, Option, none, some, List, [], ◌∷◌, String, length, get_elem?, ltb, if◌then◌else◌,
}
use custom_hts_legacy.Prelude.Int.{ℤ, pos, negsuc}
use custom_hts_legacy.Mux.Types.{
  Result, ok, err, mux_capacity_reached, placement_rejected, MuxWorkerSnapshot, Worker,
  PlacementPolicy, is_connected, is_stopped,
}

-- `connectedIndex` with `connectedCount`, or `fallbackIndex` with `fallbackCount`: `none` is -1.
abbrev pub Best : Type 0
Best = Option (ℕ × ℕ)

-- `if index == -1 || worker.SubscriptionCount < count { index, count = … }`.
unfoldable pub better : MuxWorkerSnapshot → Best → Best
better w none = some (w.index, w.subscription_count)
better w (some (index, count)) =
    if ltb w.subscription_count count
    then some (w.index, w.subscription_count)
    else some (index, count)

-- The loop of `defaultPlacementPolicy`: the best connected and the best fallback worker so far.
unfoldable pub scan_workers : List MuxWorkerSnapshot → Best → Best → Best × Best
unfolding better
scan_workers [] connected fallback = (connected, fallback)
scan_workers (w ∷ ws) connected fallback =
    scan_workers ws
      (if is_stopped w.state
        then connected
        else (if is_connected w.state then better w connected else connected))
      (if is_stopped w.state then fallback else better w fallback)

unfoldable pub choose : Best × Best → Result ℤ
choose (some (index, count), fallback) = ok (pos index)
choose (none, some (index, count)) = ok (pos index)
choose (none, none) = err mux_capacity_reached

unfoldable pub default_placement_policy : PlacementPolicy
unfolding scan_workers choose
default_placement_policy key workers = choose (scan_workers workers none none)

-- The snapshots that `pickWorker` takes of the workers, from index `i` on.
unfoldable pub snapshots_from : ℕ → List Worker → List MuxWorkerSnapshot
snapshots_from i [] = []
snapshots_from i (w ∷ ws) =
    record { index = i; state = w.state; subscription_count = length w.desired_keys }
    ∷ snapshots_from (suc i) ws

-- The checks on the index that a policy answers with.
unfoldable pub accept_worker : List Worker → ℤ → Result ℕ
accept_worker workers (negsuc n) = err placement_rejected
accept_worker workers (pos i) = elim (get_elem? workers i) [
  | none ↦ err placement_rejected
  | some w ↦ if is_stopped w.state then err placement_rejected else ok i
]

unfoldable pub checked_worker : List Worker → Result ℤ → Result ℕ
unfolding accept_worker
checked_worker workers (err e) = err e
checked_worker workers (ok index) = accept_worker workers index

unfoldable pub pick_worker : PlacementPolicy → String → List Worker → Result ℕ
unfolding snapshots_from checked_worker
pick_worker policy key workers = checked_worker workers (policy key (snapshots_from 0 workers))
