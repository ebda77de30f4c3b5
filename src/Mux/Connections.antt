-- ===== src/Mux/Connections.antt =====
-- The worker of internal/core/pkg/wsrefact_v6/ioworker.go: the outcomes of a write, and its connections.
use custom_hts_legacy.Prelude.{
  ℕ, ◌≡◌, refl, ◌⊎◌, inl, inr, false, Option, none, some, [], ◌∷◌, ◌++◌, nat_beq, nat_eq,
  Option-cases,
}
use custom_hts_legacy.Prelude.Maps.{lookup}
use custom_hts_legacy.Mux.Types.{
  Err, encode_write, ok, err, WriteIntent, EncodedWrite, IoWorkerEvent, IoWorkerEventKind, Mux,
  resolve, as_encode_error,
}
use custom_hts_legacy.Mux.Commands.{write_command}
use custom_hts_legacy.Mux.Resolution.{lookup-resolve_fresh}
use custom_hts_legacy.Mux.Loop.{handle_io_worker_event, dispatch_event, fatal_of}
use custom_hts_legacy.Mux.IoWorker.{
  IoWorker, Network, event_of, publish_event, report_write_failure, close_conn, encode_write_of,
  write_one, write_encoded, handle_any_write, handle_write, serve,
}

-- A live write whose intent the encoder refuses, on a connected worker: the caller's handle gets the
-- encoder's error, the connection stays, and the worker publishes one event; it is the one that makes the mux
-- shut down with that error.
pub refused_encoding_is_fatal :
    (net : Network) (intent : WriteIntent) (sub conn : ℕ) (e : Err) (w : IoWorker) (m : Mux)
    → w.conn ≡ some conn
    → net.encode intent ≡ err e
    → lookup sub w.results ≡ none
    → (w' : IoWorker) × (event : IoWorkerEvent) × (serve net (write_command intent sub) w ≡ some w')
      × (w'.events ≡ w.events ++ (event ∷ []))
      × (lookup sub w'.results ≡ some (some (encode_write e)))
      × (w'.closed ≡ w.closed)
      × (handle_io_worker_event event m ≡ (m, some (encode_write e)))
unfolding serve handle_write handle_any_write write_encoded encode_write_of report_write_failure
    publish_event handle_io_worker_event dispatch_event fatal_of as_encode_error
refused_encoding_is_fatal net intent sub conn e w m live refused fresh = (
  record w {
    results = resolve sub (some (encode_write e)) w.results;
    events =
        w.events
        ++ (event_of w IoWorkerEventKind.write_failed (some intent) (some (encode_write e)) ∷ []);
  },
  event_of w IoWorkerEventKind.write_failed (some intent) (some (encode_write e)),
  simp (live, refused, serve, handle_write, handle_any_write, encode_write_of, write_encoded) refl,
  refl,
  lookup-resolve_fresh sub (some (encode_write e)) w.results fresh,
  refl,
  refl,
)

-- A live write that is encoded, on a connected worker, gives the caller's handle the outcome of the write and
-- publishes no event; if the write fails, the connection is closed, so that the read loop finds it lost.
pub encoded_write_outcome :
    (net : Network) (intent : WriteIntent) (encoded : EncodedWrite) (sub conn : ℕ) (w : IoWorker)
    → w.conn ≡ some conn
    → net.encode intent ≡ ok encoded
    → nat_beq encoded.message_type 0 ≡ false
    → lookup sub w.results ≡ none
    → (w' : IoWorker) × (outcome : Option Err) × (serve net (write_command intent sub) w ≡ some w')
      × (lookup sub w'.results ≡ some outcome)
      × (w'.events ≡ w.events)
      × (w'.conn ≡ some conn)
      × (((outcome ≡ none) × (w'.closed ≡ w.closed))
          ⊎ ((x : Err) × (outcome ≡ some x) × (w'.closed ≡ conn ∷ w.closed)))
unfolding serve handle_write handle_any_write write_encoded encode_write_of close_conn
encoded_write_outcome net intent encoded sub conn w live good typed fresh =
    elim (Option-cases (write_one net encoded w)) [
      | inl sent ↦ (
        record w { results = resolve sub none w.results },
        none,
        simp
            (
              live, good, typed, sent, serve, handle_write, handle_any_write, encode_write_of,
              write_encoded,
            )
            refl,
        lookup-resolve_fresh sub none w.results fresh,
        refl,
        live,
        inl (refl, refl),
      )
      | inr (x, lost) ↦ (
        record w { results = resolve sub (some x) w.results; closed = conn ∷ w.closed },
        some x,
        simp
            (
              live, good, typed, lost, serve, handle_write, handle_any_write, encode_write_of,
              write_encoded, close_conn,
            )
            refl,
        lookup-resolve_fresh sub (some x) w.results fresh,
        refl,
        live,
        inr (x, refl, refl),
      )
    ]
