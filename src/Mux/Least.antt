-- ===== src/Mux/Least.antt =====
-- The default placement policy of internal/core/pkg/wsrefact_v6 chooses a least loaded worker.
use custom_hts_legacy.Prelude.{
  ℕ, Option-cases, ◌≤◌, ◌≡◌, refl, ◌⊎◌, inl, inr, Bool, true, false, not, none, some, List, [], ◌∷◌,
  String, get_elem?, if◌then◌else◌, arith, All, Elem, Bool-cases, ltb, ltb→lt,
}
use custom_hts_legacy.Prelude.Int.{ℤ, pos, negsuc}
use custom_hts_legacy.Mux.Types.{
  Err, Result, ok, err, mux_capacity_reached, MuxWorkerSnapshot, MuxWorkerState, Worker,
  PlacementPolicy, is_connected, is_stopped,
}
use custom_hts_legacy.Mux.Placement.{
  Best, better, scan_workers, choose, default_placement_policy, snapshots_from, accept_worker,
  checked_worker, pick_worker,
}

-- The loop for one of the two records: the best of the workers that pass a test.
scan_by : (MuxWorkerSnapshot → Bool) → List MuxWorkerSnapshot → Best → Best
unfolding better
scan_by p [] b = b
scan_by p (w ∷ ws) b = scan_by p ws (if p w then better w b else b)

abbrev pub connected_worker : MuxWorkerSnapshot → Bool
connected_worker w = is_connected w.state

abbrev pub usable_worker : MuxWorkerSnapshot → Bool
usable_worker w = not (is_stopped w.state)

state_cases :
    (s : MuxWorkerState)
    → (is_stopped s ≡ true)
      ⊎ ((is_stopped s ≡ false) × (is_connected s ≡ true))
      ⊎ ((is_stopped s ≡ false) × (is_connected s ≡ false))
state_cases MuxWorkerState.stopped = inl refl
state_cases MuxWorkerState.connected = inr (inl (refl, refl))
state_cases MuxWorkerState.connecting = inr (inr (refl, refl))
state_cases MuxWorkerState.reconnecting = inr (inr (refl, refl))

stopped_not_connected : (s : MuxWorkerState) → is_stopped s ≡ true → is_connected s ≡ false
stopped_not_connected s h = ground arith

scan_workers-eq-scan_by :
    (ws : List MuxWorkerSnapshot) (c f : Best)
    → scan_workers ws c f ≡ (scan_by connected_worker ws c, scan_by usable_worker ws f)
unfolding scan_workers scan_by
scan_workers-eq-scan_by [] c f = refl
scan_workers-eq-scan_by (w ∷ ws) c f = elim (state_cases w.state) [
  | inl e ↦ rw (e, stopped_not_connected w.state e) (scan_workers-eq-scan_by ws c f)
  | inr (inl (e, e')) ↦ rw (e, e') (scan_workers-eq-scan_by ws (better w c) (better w f))
  | inr (inr (e, e')) ↦ rw (e, e') (scan_workers-eq-scan_by ws c (better w f))
]

-- `w` passes the test, and no worker that passes it has fewer subscriptions.
abbrev pub IsLeast :
    (MuxWorkerSnapshot → Bool) → List MuxWorkerSnapshot → MuxWorkerSnapshot → Type 0
IsLeast p ws w =
    Elem w ws
    × (p w ≡ true)
    × All (λ v. p v ≡ true → w.subscription_count ≤ v.subscription_count) ws

-- What the loop answers from a record `(i, c)`: a smaller worker of the list, or the record.
abbrev Improves : (MuxWorkerSnapshot → Bool) → List MuxWorkerSnapshot → ℕ → ℕ → Best → Type 0
Improves p ws i c b =
    ((b ≡ some (i, c)) × All (λ v. p v ≡ true → c ≤ v.subscription_count) ws)
    ⊎ ((w : MuxWorkerSnapshot) × (b ≡ some (w.index, w.subscription_count))
        × (w.subscription_count ≤ c)
        × IsLeast p ws w)

scan_by-Improves :
    (p : MuxWorkerSnapshot → Bool) (ws : List MuxWorkerSnapshot) (i c : ℕ)
    → Improves p ws i c (scan_by p ws (some (i, c)))
unfolding scan_by
scan_by-Improves p [] i c = inl (refl, tt)
scan_by-Improves p (v ∷ ws) i c = elim (Bool-cases (p v)) [
  | inl pass ↦ elim (Bool-cases (ltb v.subscription_count c)) [
    | inl less ↦
        rw (pass, less, better)
          (elim (scan_by-Improves p ws v.index v.subscription_count) [
            | inl (e, all) ↦
                inr (v, e, omega (arith, ltb→lt), (inl refl, pass, ((λ _. omega arith), all)))
            | inr (w, e, le, (m, pw, all)) ↦
                inr (w, e, omega (arith, ltb→lt), (inr m, pw, ((λ _. le), all)))
          ])
    | inr more ↦
        rw (pass, more, better)
          (elim (scan_by-Improves p ws i c) [
            | inl (e, all) ↦ inl (e, ((λ _. ground arith), all))
            | inr (w, e, le, (m, pw, all)) ↦ inr (w, e, le, (inr m, pw, ((λ _. ground arith), all)))
          ])
  ]
  | inr fail ↦ rw fail (elim (scan_by-Improves p ws i c) [
    | inl (e, all) ↦ inl (e, ((λ h. cc), all))
    | inr (w, e, le, (m, pw, all)) ↦ inr (w, e, le, (inr m, pw, ((λ h. cc), all)))
  ])
]

-- What the loop answers from an empty record.
abbrev Finds : (MuxWorkerSnapshot → Bool) → List MuxWorkerSnapshot → Best → Type 0
Finds p ws b =
    ((b ≡ none) × All (λ v. p v ≡ false) ws)
    ⊎ ((w : MuxWorkerSnapshot) × (b ≡ some (w.index, w.subscription_count)) × IsLeast p ws w)

scan_by-Finds :
    (p : MuxWorkerSnapshot → Bool) (ws : List MuxWorkerSnapshot) → Finds p ws (scan_by p ws none)
unfolding scan_by
scan_by-Finds p [] = inl (refl, tt)
scan_by-Finds p (v ∷ ws) = elim (Bool-cases (p v)) [
  | inl pass ↦
      rw (pass, better)
        (elim (scan_by-Improves p ws v.index v.subscription_count) [
          | inl (e, all) ↦ inr (v, e, (inl refl, pass, ((λ _. omega arith), all)))
          | inr (w, e, le, (m, pw, all)) ↦ inr (w, e, (inr m, pw, ((λ _. le), all)))
        ])
  | inr fail ↦ rw fail (elim (scan_by-Finds p ws) [
    | inl (e, all) ↦ inl (e, (refl, all))
    | inr (w, e, (m, pw, all)) ↦ inr (w, e, (inr m, pw, ((λ h. cc), all)))
  ])
]

-- What `defaultPlacementPolicy` promises of its answer.
abbrev pub Placed : List MuxWorkerSnapshot → Result ℤ → Type 0
Placed ws r =
    ((w : MuxWorkerSnapshot) × (r ≡ ok (pos w.index)) × IsLeast connected_worker ws w)
    ⊎ ((w : MuxWorkerSnapshot) × (r ≡ ok (pos w.index))
        × IsLeast usable_worker ws w
        × All (λ v. connected_worker v ≡ false) ws)
    ⊎ ((r ≡ err mux_capacity_reached) × All (λ v. usable_worker v ≡ false) ws)

-- The default policy answers with a connected worker that has the fewest subscriptions of all
-- connected workers. If no worker is connected, it answers with one that has the fewest of the workers
-- that are not stopped. It answers with `ErrMuxCapacityReached` only if every worker is stopped.
pub default_placement_policy-Placed :
    (key : String) (ws : List MuxWorkerSnapshot) → Placed ws (default_placement_policy key ws)
unfolding default_placement_policy choose
default_placement_policy-Placed key ws =
    rw (scan_workers-eq-scan_by ws none none, choose)
      (elim (scan_by-Finds connected_worker ws) [
        | inr (w, e, least) ↦ rw (e, choose) (inl (w, refl, least))
        | inl (e, off) ↦ elim (scan_by-Finds usable_worker ws) [
          | inr (w, e', least) ↦ rw (e, e', choose) (inr (inl (w, refl, least, off)))
          | inl (e', out) ↦ rw (e, e', choose) (inr (inr (refl, out)))
        ]
      ])

ok_injective : {i j : ℕ} → ok i ≡ ok j → i ≡ j
ok_injective h = cc

pub Result-cases : {A : Type 0} (r : Result A) → ((e : Err) × (r ≡ err e)) ⊎ ((a : A) × (r ≡ ok a))
Result-cases (err e) = inl (e, refl)
Result-cases (ok a) = inr (a, refl)

accept_worker_in_range :
    (workers : List Worker) (z : ℤ) (i : ℕ)
    → accept_worker workers z ≡ ok i
    → (w : Worker) × (get_elem? workers i ≡ some w) × (is_stopped w.state ≡ false)
unfolding accept_worker
accept_worker_in_range workers (negsuc n) i h = cc
accept_worker_in_range workers (pos j) i h = elim (Option-cases (get_elem? workers j)) [
  | inl e ↦ absurd (cc (rw (e, accept_worker) at h))
  | inr (w, e) ↦ elim (Bool-cases (is_stopped w.state)) [
    | inl out ↦ absurd (cc (rw (e, accept_worker, out) at h))
    | inr live ↦
        let same : ok j ≡ ok i = rw (e, accept_worker, live) at h in
        (w, rw (ok_injective same) at e, live)
  ]
]

-- An index that the mux accepts, whatever the policy, is that of a worker that is not stopped.
pub pick_worker_in_range :
    (policy : PlacementPolicy) (key : String) (workers : List Worker) (i : ℕ)
    → pick_worker policy key workers ≡ ok i
    → (w : Worker) × (get_elem? workers i ≡ some w) × (is_stopped w.state ≡ false)
unfolding pick_worker
pick_worker_in_range policy key workers i h =
    elim (Result-cases (policy key (snapshots_from 0 workers))) [
      | inl (e, f) ↦ absurd (cc (rw (f, checked_worker) at h))
      | inr (z, f) ↦ accept_worker_in_range workers z i (rw (f, checked_worker) at h)
    ]
