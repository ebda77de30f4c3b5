-- ===== src/Ls/Streams.antt =====
-- What internal/adapter/broker/ls/api/ws/parser.go makes of a payload.
use custom_hts_legacy.Prelude.{
  ℕ, ◌≤◌, ◌<◌, ◌≡◌, refl, String, true, false, Option, none, some, [], ◌∷◌, ◌++◌, arith, ltb,
  nat_beq, length, Bool-cases, ◌⊎◌, inl, inr, if_true, if_false,
}
use custom_hts_legacy.Prelude.Texts.{Text, text_eq, byte_len}
use custom_hts_legacy.Ls.Messages.{
  Header, Envelope, Stream, StreamMessage, EventKind, raw_realtime_ignored, json_decode_failed,
  missing_realtime_tr, unknown_realtime_tr, control_response, body_decode_failed, channel_full,
  Decoder, Service, is_success, stream_buf, report, send, stream_of, publish_body, publish_to,
  is_empty, handle_realtime, is_control, handle_envelope, handle_transport_message,
}
use custom_hts_legacy.Ls.Causes.{
  Delivers, IsQuiet, TellsOf, Published, Enveloped, Handled, emit_event-Tells, others_kept,
  own_extended, empty_text, filled_text, IsQuiet-header, control_header, IsSuccess-header,
  failure_header, code_of_stream, no_stream,
}

module _ (dec : Decoder) (conn_id : String) (size : ℕ) (svc : Service) where
  told :
      (kind : EventKind) (header : Option Header)
      → TellsOf dec conn_id size svc (report kind conn_id header size svc) kind header
  told kind header =
      emit_event-Tells (record { kind = kind; conn_id = conn_id; header = header; size = size }) svc

  sent :
      (stream : Stream) (msg : StreamMessage)
      → msg.conn_id ≡ conn_id
      → ((length (svc.channels stream) < stream_buf)
          × Delivers stream msg svc (send stream msg size svc))
        ⊎ ((stream_buf ≤ length (svc.channels stream))
            × TellsOf dec conn_id size svc
                (send stream msg size svc)
                (channel_full stream)
                (some msg.header))
  unfolding send
  sent stream msg same = elim (Bool-cases (ltb (length (svc.channels stream)) stream_buf)) [
    | inl room ↦ inl (
      ground arith,
      if_true (λ (s : Service). Delivers stream msg svc s)
          (ltb (length (svc.channels stream)) stream_buf) _ _ room
          (
            refl,
            own_extended stream (svc.channels stream ++ (msg ∷ [])) (svc.channels stream),
            (λ s other. others_kept stream s (svc.channels s ++ (msg ∷ [])) (svc.channels s) other),
          ),
    )
    | inr packed ↦ inr (
      ground arith,
      if_false
          (λ (s : Service). TellsOf dec conn_id size svc s (channel_full stream) (some msg.header))
          (ltb (length (svc.channels stream)) stream_buf) _ _ packed
          (rw same (told (channel_full stream) (some msg.header))),
    )
  ]

  body-Published :
      (stream : Stream) (env : Envelope) (found : Option ℕ)
      → dec.body stream env.body ≡ found
      → (env.body ≡ [] → ⊥)
      → Published dec conn_id size svc
          (publish_body stream conn_id env.header size found svc)
          stream
          env
  body-Published stream env none e filled =
      inr (filled, inl (e, told (body_decode_failed stream) (some env.header)))
  body-Published stream env (some body) e filled = inr (
    filled,
    inr (
      body,
      e,
      sent stream (record { conn_id = conn_id; header = env.header; body = body }) refl,
    ),
  )

  publish_to-Published :
      (stream : Stream) (env : Envelope)
      → Published dec conn_id size svc
          (publish_to dec conn_id env.header env.body size (some stream) svc)
          stream
          env
  unfolding publish_to
  publish_to-Published stream env = elim (Bool-cases (is_empty env.body)) [
    | inl bare ↦
        if_true (λ (s : Service). Published dec conn_id size svc s stream env) (is_empty env.body) _
          _ bare (inl (empty_text env.body bare, told unknown_realtime_tr (some env.header)))
    | inr filled ↦
        if_false (λ (s : Service). Published dec conn_id size svc s stream env) (is_empty env.body)
          _ _ filled
          (body-Published stream env (dec.body stream env.body) refl (filled_text env.body filled))
  ]

  coded-Enveloped :
      (env : Envelope) (found : Option Stream)
      → stream_of env.header.tr_code ≡ found
      → IsQuiet env.header
      → (env.header.tr_code ≡ [] → ⊥)
      → Enveloped dec conn_id size svc
          (publish_to dec conn_id env.header env.body size found svc)
          env
  unfolding publish_to
  coded-Enveloped env none e quiet coded = inr (
    quiet,
    inr (inl (coded, no_stream env.header.tr_code e, told unknown_realtime_tr (some env.header))),
  )
  coded-Enveloped env (some stream) e quiet coded = inr (
    quiet,
    inr (inr (stream, code_of_stream env.header.tr_code stream e, publish_to-Published stream env)),
  )

  realtime-Enveloped :
      (env : Envelope)
      → IsQuiet env.header
      → Enveloped dec conn_id size svc (handle_realtime dec conn_id env size svc) env
  unfolding handle_realtime
  realtime-Enveloped env quiet = elim (Bool-cases (is_empty env.header.tr_code)) [
    | inl missing ↦
        if_true (λ (s : Service). Enveloped dec conn_id size svc s env)
          (is_empty env.header.tr_code) _ _ missing
          (inr (
            quiet,
            inl (empty_text env.header.tr_code missing, told missing_realtime_tr (some env.header)),
          ))
    | inr coded ↦
        if_false (λ (s : Service). Enveloped dec conn_id size svc s env)
          (is_empty env.header.tr_code) _ _ coded
          (coded-Enveloped env (stream_of env.header.tr_code) refl quiet
            (filled_text env.header.tr_code coded))
  ]

  response-Enveloped :
      (env : Envelope)
      → (IsQuiet env.header → ⊥)
      → Enveloped dec conn_id size svc
          (report (control_response (is_success env.header)) conn_id (some env.header) size svc)
          env
  response-Enveloped env control = elim (Bool-cases (is_success env.header)) [
    | inl good ↦ inl (
      control,
      inl (
        IsSuccess-header env.header good,
        rw good (told (control_response true) (some env.header)),
      ),
    )
    | inr bad ↦ inl (
      control,
      inr (failure_header env.header bad, rw bad (told (control_response false) (some env.header))),
    )
  ]

  envelope-Handled :
      (text : Text) (env : Option Envelope)
      → dec.envelope text ≡ env
      → Handled dec conn_id size svc (handle_envelope dec conn_id size env svc) text
  unfolding handle_envelope
  envelope-Handled text none e = inl (e, told json_decode_failed none)
  envelope-Handled text (some env) e = inr (
    env,
    e,
    elim (Bool-cases (is_control env.header)) [
      | inl control ↦
          if_true (λ (s : Service). Enveloped dec conn_id size svc s env) (is_control env.header) _
            _ control (response-Enveloped env (control_header env.header control))
      | inr realtime ↦
          if_false (λ (s : Service). Enveloped dec conn_id size svc s env) (is_control env.header) _
            _ realtime (realtime-Enveloped env (IsQuiet-header env.header realtime))
    ],
  )

-- What becomes of a payload that is not empty, by its cause. One that does not begin as JSON, or that is not an
-- envelope, is told by an event. A header with a response is told as a response, which is a success just for the
-- two success codes. Else the code names the stream: no code, and a code of no stream, are told; a message of a
-- stream with an empty body is told as one of no stream, one whose body is not read is told, and one that is read goes
-- to the end of its stream's channel, or, where this is full, is told. To be told is to be put behind the events,
-- unless these are as many as their channel holds; and nothing else changes in any of these cases.
pub message-IsHandled :
    (dec : Decoder) (conn_id : String) (c : ℕ) (s : Text) (svc : Service)
    → let text = c ∷ s in
      let svc' = handle_transport_message dec conn_id text svc in
      ((nat_beq c b'{' ≡ false)
        × TellsOf dec conn_id (byte_len text) svc svc' raw_realtime_ignored none)
      ⊎ ((nat_beq c b'{' ≡ true) × Handled dec conn_id (byte_len text) svc svc' text)
unfolding handle_transport_message
message-IsHandled dec conn_id c s svc = elim (Bool-cases (nat_beq c b'{')) [
  | inl json ↦ rw json (
      inr (
        refl,
        envelope-Handled dec conn_id (byte_len (c ∷ s)) svc (c ∷ s) (dec.envelope (c ∷ s)) refl,
      ))
  | inr raw ↦ rw raw (inl (refl, told dec conn_id (byte_len (c ∷ s)) svc raw_realtime_ignored none))
]
