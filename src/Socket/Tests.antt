-- ===== src/Socket/Tests.antt =====
-- Runs of the model of internal/core/pkg/wsrefact_v5.
use custom_hts_legacy.Prelude.{
  ℕ, ◌≡◌, refl, String, true, false, Option, none, some, List, [], ◌∷◌, ◌++◌, arith, ltb, nat_eq,
  string_eq, if◌then◌else◌, inl, inr,
}
use custom_hts_legacy.Prelude.Int.{pos}
use custom_hts_legacy.Prelude.Maps.{lookup, insert}
use custom_hts_legacy.Socket.Intents
use custom_hts_legacy.Socket.Intents.{
  Err, foreign, Intent, IntentStore, StoreOp, puts, removes, snapshots, lists, new_intent_store,
  answers,
}
use custom_hts_legacy.Socket.Ordering.{list_answers, answers_refine}
use custom_hts_legacy.Socket.State
use custom_hts_legacy.Socket.State.{
  ConnState, is_connected, Frame, SubscribeOptions, text_message, returns, writes, Config, Loop,
  new_loop, ended,
}
use custom_hts_legacy.Socket.Loop.{handle_dial_result, handle_worker_failure, handle_send}
use custom_hts_legacy.Socket.Loop
use custom_hts_legacy.Socket.Workers
use custom_hts_legacy.Socket.Client
use custom_hts_legacy.Socket.Client.{
  Step, calls, sends, subscribes, runs, asks, gets, gives_up, stops, sees_stop, handles, works,
  dials, read_fails, new_client, steps,
}
use custom_hts_legacy.Socket.Counts.{count_replies}
use custom_hts_legacy.Socket.Steady.{IsPhased}
use custom_hts_legacy.Socket.Phased.{steps-IsPhased}
use custom_hts_legacy.Socket.Resolving.{IsCounted, steps-IsCounted}
use custom_hts_legacy.Socket.Stranding.{stranded, failed_write_blocks}
use custom_hts_legacy.Socket.Writes.{frames_of, accepted, OnReady, Wrote}
use custom_hts_legacy.Socket.Activation.{connected_replayed}

abbrev intent : String → ℕ → Intent
intent key payload = record {
  key = key;
  sub_gen = λ now. inr payload;
  unsub_gen = λ now. inl (foreign 1);
  message_type = pos 0;
  write_timeout = pos 0;
}

abbrev ops : List StoreOp
ops =
    puts (intent "a" 1)
    ∷ puts (intent "b" 2)
    ∷ puts (intent "a" 3)
    ∷ removes "a"
    ∷ removes "c"
    ∷ puts (intent "a" 4)
    ∷ snapshots
    ∷ lists
    ∷ []

answers_refine_example : answers ops new_intent_store ≡ list_answers ops []
answers_refine_example = answers_refine ops

-- Everything is written but a payload of 13.
abbrev config : Config
config = record {
  event_queue_size = 2;
  write_queue_size = 1;
  write_timeout = pos 10;
  network = λ id written frame. if ltb frame.payload 13 then none else some (foreign 2);
  on_ready = none;
  ticks_before = λ id written. 0;
}

abbrev options : SubscribeOptions
options = record {
  sub_gen = some (λ now. inr 7);
  unsub_gen = some (λ now. inr 8);
  message_type = pos 0;
  write_timeout = pos 0;
}

abbrev frame : Frame
frame = record { payload = 13; message_type = text_message; write_timeout = pos 0 }

-- A hook writes one frame, and each write comes after a heartbeat.
abbrev hooked : Config
hooked = record config {
  on_ready =
      some (λ id attempt. writes (record frame { payload = 4 }) (λ outcome. returns outcome));
  ticks_before = λ id written. 1;
}

abbrev long_run : List Step
long_run =
    runs
    ∷ calls (subscribes "a" options)
    ∷ handles 1
    ∷ dials 0 none
    ∷ handles 2
    ∷ calls (sends frame)
    ∷ handles 3
    ∷ works 0
    ∷ read_fails 0 (foreign 3)
    ∷ handles 4
    ∷ asks
    ∷ handles 5
    ∷ gets 0
    ∷ asks
    ∷ stops
    ∷ gives_up 1
    ∷ []

steps-IsPhased_example : IsPhased (steps config long_run new_client)
steps-IsPhased_example = steps-IsPhased config long_run

steps-IsCounted_example : IsCounted (steps config long_run new_client)
steps-IsCounted_example = steps-IsCounted config long_run

-- A send is queued, and the client is stopped before its loop takes it.
abbrev short_run : List Step
short_run = runs ∷ calls (sends frame) ∷ stops ∷ sees_stop ∷ []

short_run_over : (steps config short_run new_client).is_finished ≡ true
unfolding steps new_client new_loop new_intent_store Client.make_call
short_run_over = refl

stranded_example :
    count_replies 0 (steps config (handles 5 ∷ []) (steps config short_run new_client)).loop.results
    ≡ 0
unfolding steps new_client new_loop new_intent_store Client.make_call
stranded_example = stranded config short_run (handles 5 ∷ []) 0 short_run_over (omega arith)

abbrev live_loop : Loop
live_loop = record {
  state = ConnState.connected;
  cancelled = false;
  store = record { order = "a" ∷ []; entries = ("a", intent "a" 5) ∷ [] };
  transports = (0, State.new_transport) ∷ [];
  next_transport = 1;
  live = some 0;
  retired = [];
  routing_open = true;
  dialing = false;
  waiting_reconnect = false;
  ready_count = 1;
  dials = [];
  timers = [];
  events = [];
  results = [];
  responses = [];
}

failed_write_blocks_example :
    let l' = handle_worker_failure 0 (foreign 2) live_loop in
    (is_connected l'.state ≡ true)
    × ((handle_send config frame 9 l').results ≡ [] ++ ((9, ended (some Intents.backoff)) ∷ []))
failed_write_blocks_example =
    failed_write_blocks config live_loop 0 (foreign 2) frame 9 refl refl refl

abbrev dialing_loop : Loop
dialing_loop = record {
  state = ConnState.reconnecting;
  cancelled = false;
  store = record { order = "a" ∷ []; entries = ("a", intent "a" 5) ∷ [] };
  transports = [];
  next_transport = 0;
  live = none;
  retired = [];
  routing_open = false;
  dialing = true;
  waiting_reconnect = false;
  ready_count = 0;
  dials = [];
  timers = [];
  events = [];
  results = [];
  responses = [];
}

dial_connects : is_connected (handle_dial_result hooked 3 0 none dialing_loop).state ≡ true
unfolding handle_dial_result Loop.activate Loop.replay Loop.run_hook Workers.send_sync
    Workers.tick_first Workers.write_sync Intents.snapshot Intents.snapshot_of lookup insert
dial_connects = refl

connected_replayed_example :
    (frames : List Frame) × (ws : List (Frame × Option Err)) × (frames_of hooked 3
        (Intents.snapshot dialing_loop.store)
      ≡ some frames)
    × OnReady hooked 0 0 ws
    × Wrote hooked 0 (accepted frames ++ ws) (handle_dial_result hooked 3 0 none dialing_loop)
connected_replayed_example = connected_replayed hooked 3 0 dialing_loop refl dial_connects
