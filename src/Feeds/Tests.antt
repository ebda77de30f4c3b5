-- ===== src/Feeds/Tests.antt =====
-- Runs of the models of internal/core/pkg/subscription and internal/core/pkg/circuitbreaker and
-- internal/core/pkg/ringbuffer.
use custom_hts_legacy.Prelude.{
  ◌≡◌, refl, inr, true, false, Option, none, some, List, [], ◌∷◌, arith, nat_eq,
}
use custom_hts_legacy.Prelude.Int.{pos, ◌+ℤ◌, ◌-ℤ◌, int64}
use custom_hts_legacy.Prelude.Maps.{lookup, insert}
use custom_hts_legacy.Feeds.Subscriptions.{
  Sub, sub_eq, Err, foreign, Call, subscribed, unsubscribed, Manager, Market, subscribes, releases,
  swaps, steps, ref_count,
}
use custom_hts_legacy.Feeds.Live.{IsServed, steps-IsServed}
use custom_hts_legacy.Feeds.Ring.{
  ring_size, unset, MarketTick, RingBuffer, new_ring_buffer, min_cursor, pass_gate, write, wait_for,
  get,
}
use custom_hts_legacy.Prelude.{ℕ}
use custom_hts_legacy.Feeds.Reading.{write_all, write_then_read, first_slot_overwritten}
use custom_hts_legacy.Feeds.Breaker.{new, idle, Pool, Turn, fails, succeeds, turns}
use custom_hts_legacy.Feeds.Openings.{IsBalanced, opens, closes, sum_over, turns-IsBalanced}

-- Broker 1 serves everything but does not let go.
clinging : Call → Option Err
clinging (subscribed b s) = none
clinging (unsubscribed b s) = some (foreign 7)

abbrev market : Market
market = record { select = λ h s. inr (some 1); answer = λ h call. clinging call }

abbrev trades : Sub
trades = record { code = "005930"; tr = "trade" }

abbrev no_entries : Manager
no_entries = record { entry = []; history = [] }

-- Two references, of which one is given back.
shared :
    ref_count trades
      (steps market (subscribes trades ∷ subscribes trades ∷ releases trades ∷ []) no_entries)
    ≡ pos 1
unfolding ref_count steps lookup insert int64 ◌+ℤ◌ ◌-ℤ◌ clinging
shared = refl

steps-IsServed_example :
    IsServed (steps market (subscribes trades ∷ swaps trades 2 ∷ releases trades ∷ []) no_entries)
unfolding lookup
steps-IsServed_example =
    steps-IsServed market (subscribes trades ∷ swaps trades 2 ∷ releases trades ∷ []) no_entries
      (λ s i h. cc)

abbrev pool : Pool
pool = record { breaker = new (pos 2) true; threads = idle ∷ idle ∷ [] }

-- Both goroutines are between their first and second operation when the other one starts.
abbrev schedule : List Turn
schedule =
    fails 0
    ∷ fails 1
    ∷ Turn.steps 0
    ∷ Turn.steps 1
    ∷ Turn.steps 0
    ∷ Turn.steps 1
    ∷ Turn.steps 1
    ∷ Turn.steps 1
    ∷ succeeds 0
    ∷ Turn.steps 0
    ∷ Turn.steps 0
    ∷ []

turns-IsBalanced_example : IsBalanced (turns schedule pool)
unfolding new opens closes sum_over
turns-IsBalanced_example = turns-IsBalanced schedule pool refl refl

abbrev zero_tick : MarketTick
zero_tick = record {
  symbol_id = pos 0;
  volume = pos 0;
  price = record { negative = false; mantissa = 0; left = 0; right = 0 };
  timestamp = pos 0;
}

abbrev tick : MarketTick
tick = record zero_tick { symbol_id = pos 7; timestamp = pos 100 }

abbrev earlier : List (ℕ × MarketTick)
earlier = (3, zero_tick) ∷ (4, zero_tick) ∷ []

abbrev later : List (ℕ × MarketTick)
later = (6, zero_tick) ∷ (9, zero_tick) ∷ []

write_then_read_example :
    let unwritten = write_all earlier (new_ring_buffer zero_tick) in
    let written = write_all later (write 5 tick unwritten) in
    (wait_for 4 unwritten ≡ none) × (wait_for 4 written ≡ some 5) × (get 5 written ≡ tick)
unfolding new_ring_buffer
write_then_read_example =
    write_then_read 5 tick earlier later (new_ring_buffer zero_tick) (omega arith) (omega arith)
      refl (refl, (refl, tt)) ((omega arith, omega arith), ((omega arith, omega arith), tt))

-- Four and five were read, and number 65540 comes.
abbrev one_reader : RingBuffer
one_reader = record (new_ring_buffer zero_tick) {
  producer_cursor = 65540;
  consumer_cursors = 5 ∷ [];
}

abbrev passed : RingBuffer
passed = record one_reader { gating_sequence_cache = 5 }

one_reader_passes : pass_gate 65540 one_reader ≡ some passed
unfolding pass_gate min_cursor new_ring_buffer
one_reader_passes = refl

first_slot_overwritten_example :
    let rb = new_ring_buffer zero_tick in
    (pass_gate ring_size rb ≡ some rb) × (wait_for unset (write ring_size tick rb) ≡ none)
unfolding new_ring_buffer
first_slot_overwritten_example = first_slot_overwritten (new_ring_buffer zero_tick) tick refl
