-- ===== src/Feeds/Ring.antt =====
-- internal/core/pkg/ringbuffer/ringbuffer.go: the ring of market ticks. `Publish` is a claim of a sequence
-- number, one pass of the gate, and the write with its commit; other goroutines run in between. Numbers are
-- uint64, and the arrays are functions of the index.
use custom_hts_legacy.Prelude.{
  ℕ, ◌+◌, ◌-◌, ◌%◌, ◌^◌, Option, none, some, List, [], ◌∷◌, ◌++◌, ltb, leb, nat_beq, if◌then◌else◌,
}
use custom_hts_legacy.Prelude.Int.{ℤ}
use custom_hts_legacy.Prelude.Float.{Float64}

abbrev pub ring_size : ℕ
ring_size = 65536

-- ^uint64(0).
abbrev pub unset : ℕ
unset = 2 ^ 64 - 1

-- `a - b` on uint64.
abbrev pub minus : ℕ → ℕ → ℕ
minus a b = (a + 2 ^ 64 - b) % 2 ^ 64

pub record MarketTick : Type 0 where
  pub symbol_id : ℤ
  pub volume : ℤ
  pub price : Float64
  pub timestamp : ℤ

pub record RingBuffer : Type 0 where
  pub producer_cursor : ℕ
  pub gating_sequence_cache : ℕ
  pub consumer_cursors : List ℕ
  pub flags : ℕ → ℕ
  pub ticks : ℕ → MarketTick

unfoldable pub new_ring_buffer : MarketTick → RingBuffer
new_ring_buffer zero_tick = record {
  producer_cursor = unset;
  gating_sequence_cache = 0;
  consumer_cursors = [];
  flags = λ i. unset;
  ticks = λ i. zero_tick;
}

unfoldable pub add_consumer : RingBuffer → RingBuffer
add_consumer rb = record rb { consumer_cursors = rb.consumer_cursors ++ (unset ∷ []) }

-- The atomic add of `Publish`: the new cursor is the sequence number.
unfoldable pub claim : RingBuffer → RingBuffer × ℕ
claim rb = let seq = (rb.producer_cursor + 1) % 2 ^ 64 in (record rb { producer_cursor = seq }, seq)

unfoldable pub min_cursor : List ℕ → ℕ → ℕ
min_cursor [] least = least
min_cursor (c ∷ cs) least = min_cursor cs (if ltb c least then c else least)

-- One pass of the gate; no answer is another round of the loop.
unfoldable pub pass_gate : ℕ → RingBuffer → Option RingBuffer
unfolding min_cursor
pass_gate seq rb =
    let least = min_cursor rb.consumer_cursors unset in
    if ltb ring_size (minus seq rb.gating_sequence_cache)
    then (if leb (minus seq least) ring_size
        then some (record rb { gating_sequence_cache = least })
        else none)
    else some rb

abbrev pub update_at : {A : Type 0} → ℕ → A → (ℕ → A) → ℕ → A
update_at i x f j = if nat_beq i j then x else f j

-- The write of the data, and the commit of the flag.
unfoldable pub write : ℕ → MarketTick → RingBuffer → RingBuffer
write seq t rb = record rb {
  ticks = update_at (seq % ring_size) t rb.ticks;
  flags = update_at (seq % ring_size) seq rb.flags;
}

-- One pass of `WaitForBusy` and `WaitForLazy`; no answer is another round.
unfoldable pub wait_for : ℕ → RingBuffer → Option ℕ
wait_for reader_cursor rb =
    let next = (reader_cursor + 1) % 2 ^ 64 in
    if nat_beq (rb.flags (next % ring_size)) next then some next else none

unfoldable pub get : ℕ → RingBuffer → MarketTick
get sequence rb = rb.ticks (sequence % ring_size)
