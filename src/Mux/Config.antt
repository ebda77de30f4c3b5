-- ===== src/Mux/Config.antt =====
-- `NewMux` and the checks of `newIOWorker` of internal/core/pkg/wsrefact_v6.
use custom_hts_legacy.Prelude.{
  ℕ, zero, suc, ◌≡◌, ◌<◌, refl, sym, inl, inr, Bool, true, false, not, Option, none, some, List, [],
  ◌∷◌, map, String, string_eq, ◌==◌, is_some, arith, get_elem?, All,
}
use custom_hts_legacy.Prelude.Int.{pos, leb_ℤ, pos_part}
use custom_hts_legacy.Prelude.Maps.{lookup}
use custom_hts_legacy.Mux.Types.{
  Err, Result, ok, err, ◌>>=◌, ◌>>◌, refuse_if, workers_required, invalid_queue_size,
  invalid_write_timeout, write_encoder_required, dialer_required, url_required, mux_stopped,
  MuxWorkerConfig, MuxConfig, MuxWorkerState, MuxRunState, PlacementPolicy, Worker, Mux,
}
use custom_hts_legacy.Mux.Placement.{default_placement_policy}
use custom_hts_legacy.Mux.Loop.{Input, run}
use custom_hts_legacy.Mux.Consistency.{Consistent}
use custom_hts_legacy.Mux.Invariant.{IsConsistent, desired_of, run-IsConsistent}
use custom_hts_legacy.Mux.Lifecycle.{lifecycle, link}
use custom_hts_legacy.Mux.Fatal.{FatalOnce, run-FatalOnce}
use custom_hts_legacy.Mux.Least.{Result-cases}
use custom_hts_legacy.Mux.Heartbeat.{NoBeat, BeatsConnected, run-BeatsConnected}

-- The command channel and the event sink are made by `NewMux`, so that they are not nil.
unfoldable pub new_io_worker : MuxWorkerConfig → Result (Unit {0})
new_io_worker config = do
  refuse_if (not (is_some config.write_encoder)) write_encoder_required
  refuse_if (not config.has_dialer) dialer_required
  refuse_if (config.url == "") url_required
  ok tt

unfoldable pub new_worker : MuxWorkerConfig → Result Worker
unfolding new_io_worker
new_worker config = do
  refuse_if (leb_ℤ config.queue_size (pos 0)) invalid_queue_size
  refuse_if (leb_ℤ config.default_write_timeout (pos 0)) invalid_write_timeout
  new_io_worker config
  ok (record {
    mailbox = record { capacity = pos_part config.queue_size; queue = []; closed = false };
    state = MuxWorkerState.connecting;
    desired_keys = [];
    dial_cancel = none;
    ping_interval = config.ping_interval;
    ping_cancel = none;
    heartbeat_epoch = 0;
  })

-- The loop of `NewMux` over the worker configurations.
unfoldable pub new_workers : List MuxWorkerConfig → Result (List Worker)
unfolding new_worker
new_workers [] = ok []
new_workers (config ∷ configs) =
    let rest = new_workers configs in (new_worker config >>= λ w. rest >>= λ ws. ok (w ∷ ws))

abbrev pub no_workers : List MuxWorkerConfig → Bool
no_workers [] = true
no_workers (config ∷ configs) = false

abbrev pub policy_or_default : Option PlacementPolicy → PlacementPolicy
policy_or_default none = default_placement_policy
policy_or_default (some policy) = policy

-- The mux that `NewMux` returns around its workers.
abbrev pub initial_mux : MuxConfig → List Worker → Mux
initial_mux config workers = record {
  workers = workers;
  subscriptions = [];
  placement_policy = policy_or_default config.placement_policy;
  shutdown_err = some mux_stopped;
  state = MuxRunState.ready;
  fatal_ch = [];
  fatal_closed = false;
  results = [];
  contexts = record { next = 0; cancelled = []; tickers = [] };
}

unfoldable pub new_mux : MuxConfig → Result Mux
unfolding new_workers
new_mux config = do
  refuse_if (no_workers config.workers) workers_required
  refuse_if (leb_ℤ config.queue_size (pos 0)) invalid_queue_size
  workers ← new_workers config.workers
  ok (initial_mux config workers)

-- A worker that has just been made.
pub record IsFresh (w : Worker) : Type 0 where
  pub room : 0 < w.mailbox.capacity
  pub queue : w.mailbox.queue ≡ []
  pub desired : w.desired_keys ≡ []
  pub beat : w.ping_cancel ≡ none

new_worker-IsFresh : (config : MuxWorkerConfig) (w : Worker) → new_worker config ≡ ok w → IsFresh w
unfolding new_worker
new_worker-IsFresh config w h = ground arith

new_workers-IsFresh :
    (configs : List MuxWorkerConfig) (ws : List Worker)
    → new_workers configs ≡ ok ws
    → All IsFresh ws
unfolding new_workers
new_workers-IsFresh [] ws h = let none_made : [] ≡ ws = cc in rw (sym none_made) tt
new_workers-IsFresh (config ∷ configs) ws h = elim (Result-cases (new_worker config)) [
  | inl (e, f) ↦ absurd (cc (rw (f, new_workers) at h))
  | inr (w, f) ↦ elim (Result-cases (new_workers configs)) [
    | inl (e, g) ↦ absurd (cc (rw (f, g, new_workers) at h))
    | inr (rest, g) ↦
        let made : ok (w ∷ rest) ≡ ok ws = rw (f, g, new_workers) at h in
        let same : w ∷ rest ≡ ws = cc in
        rw (sym same) (new_worker-IsFresh config w f, new_workers-IsFresh configs rest g)
  ]
]

fresh_desired :
    (ws : List Worker) (i : ℕ) (ks : List String)
    → All IsFresh ws
    → get_elem? (map desired_of ws) i ≡ some ks
    → ks ≡ []
fresh_desired [] i ks h at = cc
fresh_desired (w ∷ ws) zero ks h at = cc (h.0.desired)
fresh_desired (w ∷ ws) (suc i) ks h at = fresh_desired ws i ks h.1 at

fresh_beats : (ws : List Worker) → All IsFresh ws → All NoBeat (map link ws)
fresh_beats [] h = tt
fresh_beats (w ∷ ws) h = (h.0.beat, fresh_beats ws h.1)

fresh-Consistent : (ws : List Worker) → All IsFresh ws → Consistent [] (map desired_of ws)
unfolding lookup
fresh-Consistent ws h = record {
  in_range = λ k x e. cc;
  intents = λ k x e. cc;
  desired = λ i ks k at m. absurd (rw (fresh_desired ws i ks h at) at m);
  distinct = λ i ks at. rw (fresh_desired ws i ks h at) tt;
}

new_mux-initial :
    (config : MuxConfig) (m : Mux)
    → new_mux config ≡ ok m
    → (ws : List Worker) × (new_workers config.workers ≡ ok ws) × (initial_mux config ws ≡ m)
unfolding new_mux
new_mux-initial config m h = elim (Result-cases (new_workers config.workers)) [
  | inl (e, f) ↦ absurd (impossible e f)
  | inr (ws, f) ↦ (ws, f, made ws f)
]
  where
    impossible : (e : Err) → new_workers config.workers ≡ err e → ⊥
    impossible e f = ground arith

    made : (ws : List Worker) → new_workers config.workers ≡ ok ws → initial_mux config ws ≡ m
    made ws f = ground arith

-- A mux that `NewMux` made, run on any commands and worker events in any order, with its workers taking
-- commands out of their mailboxes at any time in between: its desired state is
-- consistent, at most one fatal event was published, which is the error for what follows, and a worker
-- holds a heartbeat only while it is connected.
pub new_mux-run_safe :
    (config : MuxConfig) (m : Mux) (inputs : List Input)
    → new_mux config ≡ ok m
    → IsConsistent (run inputs m)
      × FatalOnce (lifecycle (run inputs m))
      × All BeatsConnected (map link (run inputs m).workers)
new_mux-run_safe config m inputs h =
    let (ws, f, e) = new_mux-initial config m h in
    let fresh = new_workers-IsFresh config.workers ws f in
    (
      run-IsConsistent inputs m (rw (sym e) (fresh-Consistent ws fresh)),
      run-FatalOnce inputs m (rw (sym e) (inl (refl, refl, refl))),
      run-BeatsConnected inputs m (rw (sym e) (fresh_beats ws fresh)),
    )
