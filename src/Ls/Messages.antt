-- ===== src/Ls/Messages.antt =====
-- internal/adapter/broker/ls/api/ws/parser.go, with handleTransportMessage of transport.go and emitEvent of
-- ws.go: where a received payload goes. Decoding JSON is other code, so an envelope and the body of a stream are
-- what a parameter makes of bytes. Times and the copies of payloads are left out.
use custom_hts_legacy.Prelude.{
  ℕ, String, Bool, true, false, ◌||◌, not, Option, none, some, List, [], ◌∷◌, ◌++◌, ltb, nat_beq,
  ◌==◌, if◌then◌else◌, length,
}
use custom_hts_legacy.Prelude.Texts.{Text, codes, text_eq, byte_len}

pub record Header : Type 0 where
  pub tr_type : Text
  pub tr_code : Text
  pub tr_key : Text
  pub rsp_cd : Text
  pub rsp_msg : Text
  pub msg_cd : Text
  pub msg : Text

pub record Envelope : Type 0 where
  pub header : Header
  pub body : Text

pub data Stream : Type 0 where
  trade quote execution : Stream

-- A message of a stream, with what the decoder made of its body.
pub record StreamMessage : Type 0 where
  pub conn_id : String
  pub header : Header
  pub body : ℕ

pub data EventKind : Type 0 where
  raw_realtime_ignored json_decode_failed missing_realtime_tr unknown_realtime_tr : EventKind
  control_response : (success : Bool) → EventKind
  body_decode_failed channel_full : Stream → EventKind

pub record Event : Type 0 where
  pub kind : EventKind
  pub conn_id : String
  pub header : Option Header
  pub size : ℕ

-- The decoders, of the envelope and of each stream's body.
pub record Decoder : Type 0 where
  pub envelope : Text → Option Envelope
  pub body : Stream → Text → Option ℕ

pub record Service : Type 0 where
  pub channels : Stream → List StreamMessage
  pub events : List Event

abbrev pub stream_buf : ℕ
stream_buf = 256

abbrev pub event_buf : ℕ
event_buf = 256

abbrev pub stream_beq : Stream → Stream → Bool
stream_beq trade trade = true
stream_beq quote quote = true
stream_beq execution execution = true
stream_beq _ _ = false

-- An event that finds the channel full is dropped.
unfoldable pub emit_event : Event → Service → Service
emit_event event svc =
    if ltb (length svc.events) event_buf
    then record svc { events = svc.events ++ (event ∷ []) }
    else svc

abbrev pub report : EventKind → String → Option Header → ℕ → Service → Service
report kind conn_id header size =
    emit_event (record { kind = kind; conn_id = conn_id; header = header; size = size })

unfoldable pub send : Stream → StreamMessage → ℕ → Service → Service
unfolding emit_event
send stream msg size svc =
    if ltb (length (svc.channels stream)) stream_buf
    then record svc {
      channels = λ s. if stream_beq s stream then svc.channels s ++ (msg ∷ []) else svc.channels s;
    }
    else report (channel_full stream) msg.conn_id (some msg.header) size svc

abbrev pub stream_of : Text → Option Stream
stream_of tr_code =
    if tr_code == codes "US3"
    then some trade
    else if tr_code == codes "UH1"
    then some quote
    else if tr_code == codes "SC1"
    then some execution
    else none

abbrev pub publish_body : Stream → String → Header → ℕ → Option ℕ → Service → Service
publish_body stream conn_id header size none svc =
    report (body_decode_failed stream) conn_id (some header) size svc
publish_body stream conn_id header size (some body) svc =
    send stream (record { conn_id = conn_id; header = header; body = body }) size svc

abbrev pub is_empty : Text → Bool
is_empty [] = true
is_empty (c ∷ s) = false

-- `publishRealtime`, and the event for a message that it does not take.
unfoldable pub publish_to : Decoder → String → Header → Text → ℕ → Option Stream → Service → Service
unfolding send
publish_to dec conn_id header body size none svc =
    report unknown_realtime_tr conn_id (some header) size svc
publish_to dec conn_id header body size (some stream) svc =
    if is_empty body
    then report unknown_realtime_tr conn_id (some header) size svc
    else publish_body stream conn_id header size (dec.body stream body) svc

unfoldable pub handle_realtime : Decoder → String → Envelope → ℕ → Service → Service
unfolding publish_to
handle_realtime dec conn_id env size svc =
    if is_empty env.header.tr_code
    then report missing_realtime_tr conn_id (some env.header) size svc
    else publish_to dec conn_id env.header env.body size (stream_of env.header.tr_code) svc

abbrev pub is_control : Header → Bool
is_control h =
    not (is_empty h.rsp_cd)
    || not (is_empty h.rsp_msg)
    || not (is_empty h.msg_cd)
    || not (is_empty h.msg)

abbrev pub is_success : Header → Bool
is_success h = h.rsp_cd == codes "00000" || h.rsp_cd == codes "0000"

unfoldable pub handle_envelope : Decoder → String → ℕ → Option Envelope → Service → Service
unfolding handle_realtime emit_event
handle_envelope dec conn_id size none svc = report json_decode_failed conn_id none size svc
handle_envelope dec conn_id size (some env) svc =
    if is_control env.header
    then report (control_response (is_success env.header)) conn_id (some env.header) size svc
    else handle_realtime dec conn_id env size svc

unfoldable pub handle_transport_message : Decoder → String → Text → Service → Service
unfolding handle_envelope emit_event
handle_transport_message dec conn_id [] svc = svc
handle_transport_message dec conn_id (c ∷ s) svc =
    let size = byte_len (c ∷ s) in
    if not (nat_beq c b'{')
    then report raw_realtime_ignored conn_id none size svc
    else handle_envelope dec conn_id size (dec.envelope (c ∷ s)) svc
