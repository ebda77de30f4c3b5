-- ===== src/Socket/Writes.antt =====
-- internal/core/pkg/wsrefact_v5/client.go: what the loop and its hook write on a connection.
use custom_hts_legacy.Prelude.{
  ℕ, zero, suc, ◌≡◌, refl, subst, sym, ap, true, false, ◌||◌, Option, none, some, List, [], ◌∷◌,
  ◌++◌, nat_eq, ◌⊎◌, inl, inr, Bool-cases, if_true, if_false,
}
use mathlib.Core.List.{append-nil, append_assoc}
use custom_hts_legacy.Prelude.Int.{pos}
use custom_hts_legacy.Prelude.Maps.{lookup}
use custom_hts_legacy.Socket.Intents.{Err, Intent}
use custom_hts_legacy.Socket.State.{
  Frame, Transport, ping_message, Hook, returns, writes, Config, Loop,
}
use custom_hts_legacy.Socket.Workers.{
  send_sync, write_one, with_write, handle_ping, ping_times, tick_first, write_sync,
}
use custom_hts_legacy.Socket.Loop.{replayer_frame, replayer_send, run_hook, on_ready_hook}
use custom_hts_legacy.Prelude.Maps.{lookup-insert_self}
use custom_hts_legacy.Socket.State.{resolve_message_type}
use custom_hts_legacy.Socket.Phases.{Phase, scheduled, released}

-- The frames of a replay, if each generator gives a payload.
abbrev pub and_frame : Config → Intent → Err ⊎ ℕ → Option (List Frame) → Option (List Frame)
and_frame config intent (inl e) rest = none
and_frame config intent (inr payload) none = none
and_frame config intent (inr payload) (some frames) = some (
    write_one config (record {
      payload = payload;
      message_type = resolve_message_type intent.message_type;
      write_timeout = intent.write_timeout;
    })
    ∷ frames)

abbrev pub frames_of : Config → ℕ → List Intent → Option (List Frame)
frames_of config now [] = some []
frames_of config now (intent ∷ rest) =
    and_frame config intent (intent.sub_gen now) (frames_of config now rest)

abbrev pub accepted : List Frame → List (Frame × Option Err)
accepted [] = []
accepted (frame ∷ frames) = (frame, none) ∷ accepted frames

-- A heartbeat, as `writeOne` writes it.
abbrev pub ping_of : Config → Frame
ping_of config =
    write_one config (record { payload = 0; message_type = ping_message; write_timeout = pos 0 })

-- `written` are the writes of `sync`, in their order, with nothing but heartbeats between them.
abbrev pub Woven : Config → (written sync : List (Frame × Option Err)) → Type 0
Woven config [] sync = sync ≡ []
Woven config (w ∷ written) sync =
    ((w.0 ≡ ping_of config) × Woven config written sync)
    ⊎ ((rest : List (Frame × Option Err)) × (sync ≡ w ∷ rest) × Woven config written rest)

-- A run of the hook to its end, without an error, makes these writes with these outcomes.
abbrev pub IsHooked : Config → Hook → List (Frame × Option Err) → Type 0
IsHooked config (returns e) ws = (e ≡ none) × (ws ≡ [])
IsHooked config (writes frame next) [] = ⊥
IsHooked config (writes frame next) ((sent, outcome) ∷ ws) =
    (sent ≡ write_one config (replayer_frame frame)) × IsHooked config (next outcome) ws

abbrev pub OnReady : Config → (id attempt : ℕ) → List (Frame × Option Err) → Type 0
OnReady config id attempt ws = elim config.on_ready [
  | none ↦ ws ≡ []
  | some on_ready ↦ IsHooked config (on_ready id attempt) ws
]

pub Woven-sync :
    (config : Config) (written sync : List (Frame × Option Err)) (w : Frame × Option Err)
    → Woven config written sync
    → Woven config (written ++ (w ∷ [])) (sync ++ (w ∷ []))
Woven-sync config [] sync w e = inr ([], ap (λ l. l ++ (w ∷ [])) e, refl)
Woven-sync config (v ∷ written) sync w (inl (ping, h)) =
    inl (ping, Woven-sync config written sync w h)
Woven-sync config (v ∷ written) sync w (inr (rest, e, h)) =
    inr (rest ++ (w ∷ []), ap (λ l. l ++ (w ∷ [])) e, Woven-sync config written rest w h)

pub Woven-ping :
    (config : Config) (written sync : List (Frame × Option Err)) (outcome : Option Err)
    → Woven config written sync
    → Woven config (written ++ ((ping_of config, outcome) ∷ [])) sync
Woven-ping config [] sync outcome e = inl (refl, e)
Woven-ping config (v ∷ written) sync outcome (inl (ping, h)) =
    inl (ping, Woven-ping config written sync outcome h)
Woven-ping config (v ∷ written) sync outcome (inr (rest, e, h)) =
    inr (rest, e, Woven-ping config written rest outcome h)

pub some-none : {e : Err} → some e ≡ none → ⊥
some-none e = cc

pub false-true : false ≡ true → ⊥
false-true e = cc

pub backed_off_down : (p : Phase) → Phase.up (scheduled (released p)) ≡ false
backed_off_down p = elim (Bool-cases (p.waiting || p.cancelled)) [
  | inl stays ↦ if_true (λ (q : Phase). q.up ≡ false) (p.waiting || p.cancelled) _ _ stays refl
  | inr waits ↦ if_false (λ (q : Phase). q.up ≡ false) (p.waiting || p.cancelled) _ _ waits refl
]

-- What the loop wrote on a transport, with nothing but heartbeats between.
abbrev pub Wrote : Config → ℕ → List (Frame × Option Err) → Loop → Type 0
Wrote config id sync l =
    (t : Transport) × (lookup id l.transports ≡ some t) × Woven config t.written sync

module _ (config : Config) (id : ℕ) where
  pub pinged-Wrote :
      (sync : List (Frame × Option Err)) (l : Loop)
      → Wrote config id sync l
      → Wrote config id sync (handle_ping config id l)
  unfolding handle_ping
  pinged-Wrote sync l (t, found, h) =
      let outcome = config.network id t.written (ping_of config) in
      rw (handle_ping, found)
        (elim (Bool-cases t.is_done) [
          | inl over ↦ if_true (Wrote config id sync) t.is_done _ _ over (t, found, h)
          | inr working ↦ if_false (Wrote config id sync) t.is_done _ _ working (
            with_write (ping_of config) outcome t,
            lookup-insert_self id (with_write (ping_of config) outcome t) l.transports,
            Woven-ping config t.written sync outcome h,
          )
        ])

  pub pings-Wrote :
      (n : ℕ) (sync : List (Frame × Option Err)) (l : Loop)
      → Wrote config id sync l
      → Wrote config id sync (ping_times config id n l)
  unfolding ping_times
  pings-Wrote zero sync l h = h
  pings-Wrote (suc n) sync l h =
      pings-Wrote n sync (handle_ping config id l) (pinged-Wrote sync l h)

  pub ticked-Wrote :
      (sync : List (Frame × Option Err)) (l : Loop)
      → Wrote config id sync l
      → Wrote config id sync (tick_first config id l)
  unfolding tick_first
  ticked-Wrote sync l (t, found, h) =
      rw (tick_first, found) (pings-Wrote (config.ticks_before id t.written) sync l (t, found, h))

  pub put-Wrote :
      (frame : Frame) (sync : List (Frame × Option Err)) (l : Loop)
      → Wrote config id sync l
      → let o = write_sync config id frame l in
        Wrote config id (sync ++ ((write_one config frame, o.1) ∷ [])) o.0
  unfolding write_sync
  put-Wrote frame sync l (t, found, h) =
      let sent = write_one config frame in
      let outcome = config.network id t.written sent in
      rw (write_sync, found)
        (
          with_write sent outcome t,
          lookup-insert_self id (with_write sent outcome t) l.transports,
          Woven-sync config t.written sync (sent, outcome) h,
        )

  pub sent-Wrote :
      (frame : Frame) (sync : List (Frame × Option Err)) (l : Loop)
      → Wrote config id sync l
      → let o = send_sync config id frame l in
        Wrote config id (sync ++ ((write_one config frame, o.1) ∷ [])) o.0
  unfolding send_sync
  sent-Wrote frame sync l h = put-Wrote frame sync (tick_first config id l) (ticked-Wrote sync l h)

  pub moved-Wrote :
      (a b : List (Frame × Option Err)) (l : Loop)
      → a ≡ b
      → Wrote config id a l
      → Wrote config id b l
  moved-Wrote a b l e h = subst (λ sync. Wrote config id sync l) e h

  pub hook-Wrote :
      (hook : Hook) (sync : List (Frame × Option Err)) (l : Loop)
      → Wrote config id sync l
      → (run_hook config id hook l).1 ≡ none
      → (ws : List (Frame × Option Err)) × IsHooked config hook ws
        × Wrote config id (sync ++ ws) (run_hook config id hook l).0
  unfolding run_hook
  hook-Wrote (returns e) sync l h fine =
      ([], (fine, refl), moved-Wrote sync (sync ++ []) l (sym (append-nil sync)) h)
  hook-Wrote (writes frame next) sync l h fine =
      let o = replayer_send config id frame l in
      let w : Frame × Option Err = (write_one config (replayer_frame frame), o.1) in
      let (ws, hooked, wrote) =
        hook-Wrote (next o.1) (sync ++ (w ∷ [])) o.0 (sent-Wrote (replayer_frame frame) sync l h)
          fine in
      (
        w ∷ ws,
        (refl, hooked),
        moved-Wrote ((sync ++ (w ∷ [])) ++ ws) (sync ++ (w ∷ ws))
            (run_hook config id (next o.1) o.0).0 (append_assoc sync (w ∷ []) ws) wrote,
      )

  pub ready-Wrote :
      (attempt : ℕ) (hook : Option (ℕ → ℕ → Hook)) (sync : List (Frame × Option Err)) (l : Loop)
      → config.on_ready ≡ hook
      → Wrote config id sync l
      → (on_ready_hook config hook id attempt l).1 ≡ none
      → (ws : List (Frame × Option Err)) × OnReady config id attempt ws
        × Wrote config id (sync ++ ws) (on_ready_hook config hook id attempt l).0
  ready-Wrote attempt none sync l same h fine =
      ([], rw same refl, moved-Wrote sync (sync ++ []) l (sym (append-nil sync)) h)
  ready-Wrote attempt (some go) sync l same h fine =
      let (ws, hooked, wrote) = hook-Wrote (go id attempt) sync l h fine in
      (ws, rw same hooked, wrote)
