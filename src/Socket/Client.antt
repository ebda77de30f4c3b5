-- ===== src/Socket/Client.antt =====
-- internal/core/pkg/wsrefact_v5/client.go: the client with its event channel, and the steps of its goroutines. A
-- step of `handles` is one pass of the loop of `Run`; `asks`, `gets` and `gives_up` are the parts of a
-- `Subscriptions` call; `dials`, `ticks`, `handler_fails`, `read_fails` and
-- `write_fails` are what the other goroutines put into the channel, which they do once it has room, whatever
-- transport they belong to; `quits` is a goroutine that a stopped client does not wait for.
use custom_hts_legacy.Prelude.{
  ℕ, ◌+◌, String, Bool, true, false, ◌&&◌, ◌||◌, not, Option, none, some, List, [], ◌∷◌, ◌++◌, ltb,
  ◌==◌, nat_eq, if◌then◌else◌, length,
}
use custom_hts_legacy.Prelude.Maps.{lookup}
use custom_hts_legacy.Socket.Intents.{Err, client_stopped, queue_full}
use custom_hts_legacy.Socket.State.{
  ConnState, SubscribeOptions, Frame, Reply, ended, Config, Loop, new_loop, resolve,
}
use custom_hts_legacy.Socket.Workers.{worker_step, handle_ping}
use custom_hts_legacy.Socket.Loop.{
  Event, send, subscribe, unsubscribe, snapshot_keys, dial_result, reconnect_tick, handler_failed,
  read_failed, worker_failed, with_state, start_dial, handle_event, shutdown,
}

-- `is_finished` is whether `Run` has returned; `next_handle` numbers the calls of `Send`, `Subscribe` and
-- `Unsubscribe`; `next_query` those of `Subscriptions`, which wait for their keys while they are `asking`, and have
-- `returned` with them or with none.
pub record Client : Type 0 where
  pub is_started : Bool
  pub is_finished : Bool
  pub event_ch : List Event
  pub next_handle : ℕ
  pub next_query : ℕ
  pub asking : List ℕ
  pub returned : List (ℕ × List String)
  pub loop : Loop

unfoldable pub new_client : Client
unfolding new_loop
new_client = record {
  is_started = false;
  is_finished = false;
  event_ch = [];
  next_handle = 0;
  next_query = 0;
  asking = [];
  returned = [];
  loop = new_loop;
}

pub data Call : Type 0 where
  sends : Frame → Call
  subscribes : String → SubscribeOptions → Call
  unsubscribes : String → Call

abbrev pub event_of : Call → ℕ → Event
event_of (sends frame) handle = send frame handle
event_of (subscribes key options) handle = subscribe key options handle
event_of (unsubscribes key) handle = unsubscribe key handle

-- What a call that is not taken returns.
abbrev pub refusal : Call → Err → Reply
refusal (sends frame) e = ended (some e)
refusal (subscribes key options) e = ended (some e)
refusal (unsubscribes key) e = ended (some e)

abbrev pub with_loop : Loop → Client → Client
with_loop l c = record c { loop = l }

abbrev pub push : Event → Client → Client
push event c = record c { event_ch = c.event_ch ++ (event ∷ []) }

-- `publishPublic`, with what its callers do on an error.
unfoldable pub publish_public : Config → Call → ℕ → Client → Client
publish_public config call handle c =
    if not c.is_started || c.loop.cancelled
    then with_loop (resolve handle (refusal call client_stopped) c.loop) c
    else if ltb (length c.event_ch) config.event_queue_size
    then push (event_of call handle) c
    else with_loop (resolve handle (refusal call queue_full) c.loop) c

unfoldable pub make_call : Config → Call → Client → Client
unfolding publish_public
make_call config call c =
    publish_public config call c.next_handle (record c { next_handle = c.next_handle + 1 })

abbrev pub return_keys : ℕ → List String → Client → Client
return_keys query ks c = record c { returned = c.returned ++ ((query, ks) ∷ []) }

-- `Subscriptions` up to its wait: a client that does not run, or whose channel is full, has no keys.
unfoldable pub ask : Config → Client → Client
ask config c =
    if not c.is_started || c.loop.cancelled
    then return_keys c.next_query [] (record c { next_query = c.next_query + 1 })
    else if ltb (length c.event_ch) config.event_queue_size
    then push (snapshot_keys c.next_query)
        (record c { next_query = c.next_query + 1; asking = c.next_query ∷ c.asking })
    else return_keys c.next_query [] (record c { next_query = c.next_query + 1 })

-- The start of `Run`; a second run returns at once.
unfoldable pub run : Client → Client
unfolding start_dial
run c = if c.is_started then c else record c {
  is_started = true;
  loop = start_dial 0 (with_state ConnState.reconnecting c.loop);
}

unfoldable pub stop : Client → Client
stop c = record c { loop = record c.loop { cancelled = true } }

unfoldable pub finish : Config → Option Err → Client → Client
unfolding shutdown
finish config run_err c = record c { is_finished = true; loop = shutdown config run_err c.loop }

abbrev pub after_event : Config → Client → Loop × Option Err → Client
after_event config c (l, none) = with_loop l c
after_event config c (l, some e) = finish config (some e) (with_loop l c)

abbrev pub handle_first : Config → ℕ → List Event → Client → Client
handle_first config now [] c = c
handle_first config now (event ∷ rest) c =
    after_event config (record c { event_ch = rest }) (handle_event config now event c.loop)

unfoldable pub handle_next : Config → ℕ → Client → Client
unfolding handle_event finish
handle_next config now c =
    if c.is_started && not c.is_finished then handle_first config now c.event_ch c else c

-- The loop sees that its context has ended.
unfoldable pub see_stop : Config → Client → Client
unfolding finish
see_stop config c =
    if c.is_started && not c.is_finished && c.loop.cancelled then finish config none c else c

-- `publishInternal`.
unfoldable pub publish_internal : Config → Event → Client → Client
publish_internal config event c =
    if ltb (length c.event_ch) config.event_queue_size then push event c else c

abbrev pub has : ℕ → List ℕ → Bool
has n [] = false
has n (m ∷ ms) = m == n || has n ms

abbrev pub drop : ℕ → List ℕ → List ℕ
drop n [] = []
drop n (m ∷ ms) = let rest = drop n ms in if m == n then ms else m ∷ rest

abbrev pub got : ℕ → Option (List String) → Client → Client
got query none c = c
got query (some ks) c = return_keys query ks (record c { asking = drop query c.asking })

-- The two ends of the wait of `Subscriptions`: the response is there, or the client is stopped.
unfoldable pub get_keys : ℕ → Client → Client
get_keys query c = if has query c.asking then got query (lookup query c.loop.responses) c else c

unfoldable pub give_up : ℕ → Client → Client
give_up query c =
    if has query c.asking && c.loop.cancelled
    then return_keys query [] (record c { asking = drop query c.asking })
    else c

abbrev pub without_dial : ℕ → Client → Client
without_dial attempt c = with_loop (record c.loop { dials = drop attempt c.loop.dials }) c

abbrev pub without_timer : ℕ → Client → Client
without_timer attempt c = with_loop (record c.loop { timers = drop attempt c.loop.timers }) c

pub data Step : Type 0 where
  calls : Call → Step
  runs stops sees_stop asks : Step
  gets gives_up : (query : ℕ) → Step
  handles : (now : ℕ) → Step
  works pings : ℕ → Step
  dials : (attempt : ℕ) → Option Err → Step
  ticks quits : (attempt : ℕ) → Step
  handler_fails read_fails write_fails : ℕ → Err → Step

-- A goroutine that dials or waits ends with its event.
unfoldable pub end_dial : Config → ℕ → Option Err → Client → Client
end_dial config attempt outcome c =
    if has attempt c.loop.dials && ltb (length c.event_ch) config.event_queue_size
    then push (dial_result attempt outcome) (without_dial attempt c)
    else c

unfoldable pub end_timer : Config → ℕ → Client → Client
end_timer config attempt c =
    if has attempt c.loop.timers && ltb (length c.event_ch) config.event_queue_size
    then push (reconnect_tick attempt) (without_timer attempt c)
    else c

unfoldable pub quit : ℕ → Client → Client
quit attempt c = if c.loop.cancelled then without_dial attempt (without_timer attempt c) else c

unfoldable pub step : Config → Step → Client → Client
unfolding make_call ask get_keys give_up run stop see_stop handle_next publish_internal end_dial
    end_timer quit
step config (calls call) c = make_call config call c
step config asks c = ask config c
step config (gets query) c = get_keys query c
step config (gives_up query) c = give_up query c
step config runs c = run c
step config stops c = stop c
step config sees_stop c = see_stop config c
step config (handles now) c = handle_next config now c
step config (works id) c = with_loop (worker_step config id c.loop) c
step config (pings id) c = with_loop (handle_ping config id c.loop) c
step config (dials attempt outcome) c = end_dial config attempt outcome c
step config (ticks attempt) c = end_timer config attempt c
step config (quits attempt) c = quit attempt c
step config (handler_fails id e) c = publish_internal config (handler_failed id e) c
step config (read_fails id e) c = publish_internal config (read_failed id e) c
step config (write_fails id e) c = publish_internal config (worker_failed id e) c

unfoldable pub steps : Config → List Step → Client → Client
unfolding step
steps config [] c = c
steps config (s ∷ ss) c = steps config ss (step config s c)
