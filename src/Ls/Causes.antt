-- ===== src/Ls/Causes.antt =====
-- internal/adapter/broker/ls/api/ws/parser.go: what a payload should become, by its cause.
use custom_hts_legacy.Prelude.{
  ℕ, ◌≤◌, ◌<◌, ◌≡◌, refl, sym, ap, ◌∙◌, String, true, false, Option, none, some, List, [], ◌∷◌,
  ◌++◌, arith, ltb, ◌==◌, if◌then◌else◌, length, Bool-cases, ◌⊎◌, inl, inr, if_true, if_false,
}
use custom_hts_legacy.Prelude.Texts.{Text, codes, text_eq}
use custom_hts_legacy.Ls.Messages.{
  Header, Envelope, Stream, trade, quote, execution, StreamMessage, EventKind, json_decode_failed,
  missing_realtime_tr, unknown_realtime_tr, control_response, body_decode_failed, channel_full,
  Event, Decoder, Service, is_success, stream_buf, event_buf, stream_beq, emit_event, stream_of,
  is_empty, is_control,
}

-- An event is told: it is put behind the events of the service, or lost if they are as many as the channel holds.
-- No stream message is put anywhere.
abbrev pub Tells : Event → Service → Service → Type 0
Tells event svc svc' =
    (((length svc.events < event_buf) × (svc'.events ≡ svc.events ++ (event ∷ [])))
      ⊎ ((event_buf ≤ length svc.events) × (svc'.events ≡ svc.events)))
    × (svc'.channels ≡ svc.channels)

-- A stream message is put behind those of its channel, and nothing else changes.
abbrev pub Delivers : Stream → StreamMessage → Service → Service → Type 0
Delivers stream msg svc svc' =
    (svc'.events ≡ svc.events)
    × (svc'.channels stream ≡ svc.channels stream ++ (msg ∷ []))
    × ((s : Stream) → (s ≡ stream → ⊥) → svc'.channels s ≡ svc.channels s)

-- The code of a stream's messages.
abbrev pub code_of : Stream → Text
code_of trade = codes "US3"
code_of quote = codes "UH1"
code_of execution = codes "SC1"

-- A header without a response is not one of a control message.
abbrev pub IsQuiet : Header → Type 0
IsQuiet h = (h.rsp_cd ≡ []) × (h.rsp_msg ≡ []) × (h.msg_cd ≡ []) × (h.msg ≡ [])

abbrev pub IsSuccess : Header → Type 0
IsSuccess h = (h.rsp_cd ≡ codes "00000") ⊎ (h.rsp_cd ≡ codes "0000")

module _ (dec : Decoder) (conn_id : String) (size : ℕ) (svc svc' : Service) where
  -- An event of this payload.
  abbrev pub TellsOf : EventKind → Option Header → Type 0
  TellsOf kind header =
      Tells (record { kind = kind; conn_id = conn_id; header = header; size = size }) svc svc'

  -- A message of a stream, with its body: one that is empty counts as a message of no stream, one that the decoder
  -- does not read is told, and what it reads is delivered, if the channel has room.
  abbrev pub Published : Stream → Envelope → Type 0
  Published stream env =
      ((env.body ≡ []) × TellsOf unknown_realtime_tr (some env.header))
      ⊎ ((env.body ≡ [] → ⊥)
          × (((dec.body stream env.body ≡ none)
                × TellsOf (body_decode_failed stream) (some env.header))
              ⊎ ((body : ℕ) × (dec.body stream env.body ≡ some body)
                  × (((length (svc.channels stream) < stream_buf)
                        × Delivers stream
                            (record { conn_id = conn_id; header = env.header; body = body }) svc
                            svc')
                      ⊎ ((stream_buf ≤ length (svc.channels stream))
                          × TellsOf (channel_full stream) (some env.header))))))

  abbrev pub Enveloped : Envelope → Type 0
  Enveloped env =
      ((IsQuiet env.header → ⊥)
        × ((IsSuccess env.header × TellsOf (control_response true) (some env.header))
            ⊎ ((IsSuccess env.header → ⊥) × TellsOf (control_response false) (some env.header))))
      ⊎ (IsQuiet env.header
          × (((env.header.tr_code ≡ []) × TellsOf missing_realtime_tr (some env.header))
              ⊎ ((env.header.tr_code ≡ [] → ⊥)
                  × ((stream : Stream) → env.header.tr_code ≡ code_of stream → ⊥)
                  × TellsOf unknown_realtime_tr (some env.header))
              ⊎ ((stream : Stream) × (env.header.tr_code ≡ code_of stream) × Published stream env)))

  abbrev pub Handled : Text → Type 0
  Handled text =
      ((dec.envelope text ≡ none) × TellsOf json_decode_failed none)
      ⊎ ((env : Envelope) × (dec.envelope text ≡ some env) × Enveloped env)

pub emit_event-Tells : (event : Event) (svc : Service) → Tells event svc (emit_event event svc)
unfolding emit_event
emit_event-Tells event svc = elim (Bool-cases (ltb (length svc.events) event_buf)) [
  | inl room ↦
      if_true (λ (s : Service). Tells event svc s) (ltb (length svc.events) event_buf) _ _ room
        (inl (ground arith, refl), refl)
  | inr full ↦
      if_false (λ (s : Service). Tells event svc s) (ltb (length svc.events) event_buf) _ _ full
        (inr (ground arith, refl), refl)
]

-- The channel of another stream is another one.
pub others_kept :
    (stream s : Stream) (msgs : List StreamMessage) (old : List StreamMessage)
    → (s ≡ stream → ⊥)
    → (if stream_beq s stream then msgs else old) ≡ old
others_kept trade trade msgs old other = absurd (other refl)
others_kept trade quote msgs old other = refl
others_kept trade execution msgs old other = refl
others_kept quote trade msgs old other = refl
others_kept quote quote msgs old other = absurd (other refl)
others_kept quote execution msgs old other = refl
others_kept execution trade msgs old other = refl
others_kept execution quote msgs old other = refl
others_kept execution execution msgs old other = absurd (other refl)

pub own_extended :
    (stream : Stream) (msgs old : List StreamMessage)
    → (if stream_beq stream stream then msgs else old) ≡ msgs
own_extended trade msgs old = refl
own_extended quote msgs old = refl
own_extended execution msgs old = refl

pub empty_text : (t : Text) → is_empty t ≡ true → t ≡ []
empty_text [] e = refl
empty_text (c ∷ s) e = cc

pub filled_text : (t : Text) → is_empty t ≡ false → t ≡ [] → ⊥
filled_text [] e f = cc
filled_text (c ∷ s) e f = cc

pub IsQuiet-header : (h : Header) → is_control h ≡ false → IsQuiet h
IsQuiet-header h e = (
  empty_text h.rsp_cd (ground arith),
  empty_text h.rsp_msg (ground arith),
  empty_text h.msg_cd (ground arith),
  empty_text h.msg (ground arith),
)

pub control_header : (h : Header) → is_control h ≡ true → IsQuiet h → ⊥
control_header h e (a, b, c, d) =
    let quiet : is_control h ≡ false = rw (a, b, c, d) refl in cc (sym e ∙ quiet)

pub IsSuccess-header : (h : Header) → is_success h ≡ true → IsSuccess h
IsSuccess-header h e = elim (Bool-cases (h.rsp_cd == codes "00000")) [
  | inl five ↦ inl ((text_eq.beq_iff h.rsp_cd (codes "00000")).0 five)
  | inr no_five ↦ inr ((text_eq.beq_iff h.rsp_cd (codes "0000")).0 (rw no_five at e))
]

pub failure_header : (h : Header) → is_success h ≡ false → IsSuccess h → ⊥
failure_header h e (inl five) = let good : is_success h ≡ true = rw five refl in cc (sym e ∙ good)
failure_header h e (inr four) = let good : is_success h ≡ true = rw four refl in cc (sym e ∙ good)

-- The codes tell the streams apart.
pub stream_of_code : (stream : Stream) → stream_of (code_of stream) ≡ some stream
stream_of_code trade = refl
stream_of_code quote = refl
stream_of_code execution = refl

pub code_of_stream : (t : Text) (stream : Stream) → stream_of t ≡ some stream → t ≡ code_of stream
code_of_stream t stream e = elim (Bool-cases (t == codes "US3")) [
  | inl a ↦
      let same : trade ≡ stream = cc (rw a at e) in
      (text_eq.beq_iff t (codes "US3")).0 a ∙ ap code_of same
  | inr na ↦ elim (Bool-cases (t == codes "UH1")) [
    | inl b ↦
        let same : quote ≡ stream = cc (rw (na, b) at e) in
        (text_eq.beq_iff t (codes "UH1")).0 b ∙ ap code_of same
    | inr nb ↦ elim (Bool-cases (t == codes "SC1")) [
      | inl c ↦
          let same : execution ≡ stream = cc (rw (na, nb, c) at e) in
          (text_eq.beq_iff t (codes "SC1")).0 c ∙ ap code_of same
      | inr nc ↦ cc (rw (na, nb, nc) at e)
    ]
  ]
]

pub no_stream : (t : Text) → stream_of t ≡ none → (stream : Stream) → t ≡ code_of stream → ⊥
no_stream t e stream f = cc (sym e ∙ ap stream_of f ∙ stream_of_code stream)
