-- ===== src/Socket/Activation.antt =====
-- internal/core/pkg/wsrefact_v5/client.go: a connection is used only after every subscription was replayed on it.
use custom_hts_legacy.Prelude.{
  ℕ, ◌+◌, ◌≡◌, refl, sym, ◌∙◌, ap, true, false, Option, none, some, List, [], ◌∷◌, ◌++◌, nat_eq,
  ◌⊎◌, inl, inr, if_false,
}
use mathlib.Core.List.{append-nil, append_assoc}
use custom_hts_legacy.Socket.Intents.{
  Err, handler_continue, handler_backoff, PayloadGen, Intent, IntentStore, put, remove,
}
use custom_hts_legacy.Socket.Intents
use custom_hts_legacy.Socket.State.{Frame, Config, Loop}
use custom_hts_legacy.Socket.Workers.{send_sync, write_one}
use custom_hts_legacy.Socket.Loop.{
  replay_generated, then_go, on_ready_hook, replay, activate, activated,
}
use custom_hts_legacy.Prelude.Maps.{lookup-insert_self}
use custom_hts_legacy.Socket.State.{is_connected, resolve_message_type, new_transport}
use custom_hts_legacy.Socket.Phases.{Phase, phase_of, backoff-phase}
use custom_hts_legacy.Socket.Loop.{handle_dial_result, with_transport}
use custom_hts_legacy.Socket.Writes.{
  and_frame, frames_of, accepted, OnReady, false-true, backed_off_down, Wrote, sent-Wrote,
  moved-Wrote, ready-Wrote,
}

module _ (config : Config) (now id : ℕ) where
  -- After the writes `sync` of the loop, the intents were written and accepted, if there is no error.
  abbrev IsReplayed : List (Frame × Option Err) → List Intent → Loop × Option Err → Type 0
  IsReplayed sync intents o =
      o.1 ≡ none
      → (frames : List Frame) × (frames_of config now intents ≡ some frames)
        × Wrote config id (sync ++ accepted frames) o.0

  accepted_first :
      (intent : Intent) (rest : List Intent) (payload : ℕ) (sent : Frame)
      (sync : List (Frame × Option Err)) (o : Loop × Option Err)
      → sent
        ≡ write_one config (record {
          payload = payload;
          message_type = resolve_message_type intent.message_type;
          write_timeout = intent.write_timeout;
        })
      → Wrote config id (sync ++ ((sent, o.1) ∷ [])) o.0
      → ((l : Loop) (sync' : List (Frame × Option Err))
          → Wrote config id sync' l
          → IsReplayed sync' rest (replay config now id rest l))
      → (then_go o (λ l. replay config now id rest l)).1 ≡ none
      → (frames : List Frame) × (and_frame config intent (inr payload) (frames_of config now rest)
          ≡ some frames)
        × Wrote config id (sync ++ accepted frames) (then_go o (λ l. replay config now id rest l)).0
  accepted_first intent rest payload sent sync (l, some e) same h next fine = cc
  accepted_first intent rest payload sent sync (l, none) same h next fine =
      let (frames, all, wrote) = next l (sync ++ ((sent, none) ∷ [])) h fine in
      (
        sent ∷ frames,
        rw all (ap (λ (f : Frame). some (f ∷ frames)) (sym same)),
        moved-Wrote config id ((sync ++ ((sent, none) ∷ [])) ++ accepted frames)
            (sync ++ accepted (sent ∷ frames)) (replay config now id rest l).0
            (append_assoc sync ((sent, none) ∷ []) (accepted frames)) wrote,
      )

  sent_first :
      (intent : Intent) (rest : List Intent) (r : Err ⊎ ℕ) (l : Loop)
      (sync : List (Frame × Option Err))
      → Wrote config id sync l
      → ((l' : Loop) (sync' : List (Frame × Option Err))
          → Wrote config id sync' l'
          → IsReplayed sync' rest (replay config now id rest l'))
      → (then_go (replay_generated config id intent r l) (λ l'. replay config now id rest l')).1
        ≡ none
      → (frames : List Frame) × (and_frame config intent r (frames_of config now rest)
          ≡ some frames)
        × Wrote config id
            (sync ++ accepted frames)
            (then_go (replay_generated config id intent r l) (λ l'. replay config now id rest l')).0
  sent_first intent rest (inl e) l sync h next fine = cc
  sent_first intent rest (inr payload) l sync h next fine =
      let frame : Frame = record {
        payload = payload;
        message_type = resolve_message_type intent.message_type;
        write_timeout = intent.write_timeout;
      } in
      accepted_first intent rest payload (write_one config frame) sync (send_sync config id frame l)
        refl (sent-Wrote config id frame sync l h) next fine

  replay-IsReplayed :
      (intents : List Intent) (l : Loop) (sync : List (Frame × Option Err))
      → Wrote config id sync l
      → IsReplayed sync intents (replay config now id intents l)
  unfolding replay
  replay-IsReplayed [] l sync h fine =
      ([], refl, moved-Wrote config id sync (sync ++ []) l (sym (append-nil sync)) h)
  replay-IsReplayed (intent ∷ rest) l sync h fine =
      sent_first intent rest (intent.sub_gen now) l sync h
        (λ l' sync' h'. replay-IsReplayed rest l' sync' h') fine

  -- What the activation has written when it has no error.
  abbrev IsActive : ℕ → List Intent → Loop → Type 0
  IsActive attempt intents l =
      (frames : List Frame) × (ws : List (Frame × Option Err)) × (frames_of config now intents
        ≡ some frames)
      × OnReady config id attempt ws
      × Wrote config id (accepted frames ++ ws) l

  ready-IsActive :
      (attempt : ℕ) (intents : List Intent) (o : Loop × Option Err)
      → IsReplayed [] intents o
      → (then_go o (on_ready_hook config config.on_ready id attempt)).1 ≡ none
      → IsActive attempt intents (then_go o (on_ready_hook config config.on_ready id attempt)).0
  ready-IsActive attempt intents (l, some e) k fine = cc
  ready-IsActive attempt intents (l, none) k fine =
      let (frames, all, wrote) = k refl in
      let (ws, hooked, both) =
        ready-Wrote config id attempt config.on_ready (accepted frames) l refl wrote fine in
      (frames, ws, all, hooked, both)

  activated-IsActive :
      (attempt : ℕ) (intents : List Intent) (o : Loop × Option Err)
      → (o.1 ≡ none → IsActive attempt intents o.0)
      → is_connected (activated attempt o).state ≡ true
      → IsActive attempt intents (activated attempt o)
  activated-IsActive attempt intents (l, some e) k up = absurd (
      false-true (
        sym (backed_off_down (phase_of l))
        ∙ ap Phase.up (sym (backoff-phase config e (attempt + 1) l))
        ∙ up))
  activated-IsActive attempt intents (l, none) k up = k refl

-- A dial has succeeded, and the client is connected when the result was handled. Then every subscription of the
-- store, in its order, had its payload generated, written on the new connection and accepted; after them the hook
-- `OnReady`, where there is one, made its writes and returned without an error; and nothing but heartbeats was
-- written before, between and after these writes.
pub connected_replayed :
    (config : Config) (now attempt : ℕ) (l : Loop)
    → l.cancelled ≡ false
    → is_connected (handle_dial_result config now attempt none l).state ≡ true
    → (frames : List Frame) × (ws : List (Frame × Option Err)) × (frames_of config now
          (Intents.snapshot l.store)
        ≡ some frames)
      × OnReady config l.next_transport attempt ws
      × Wrote config l.next_transport
          (accepted frames ++ ws)
          (handle_dial_result config now attempt none l)
unfolding handle_dial_result activate
connected_replayed config now attempt l running =
    let start = with_transport (record l { dialing = false }) in
    let id = l.next_transport in
    let done = activate config now id attempt start in
    let intents = Intents.snapshot l.store in
    if_false (λ (x : Loop). is_connected x.state ≡ true → IsActive config now id attempt intents x)
      l.cancelled _ _ running
      (activated-IsActive config now id attempt intents done (
        ready-IsActive config now id attempt intents (replay config now id intents start) (
          replay-IsReplayed config now id intents start []
            (new_transport, lookup-insert_self id new_transport l.transports, refl))))
