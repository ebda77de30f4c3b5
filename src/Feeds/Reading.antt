-- ===== src/Feeds/Reading.antt =====
-- What readers of internal/core/pkg/ringbuffer see of what was published.
use custom_hts_legacy.Prelude.{
  ℕ, ◌∙◌, ◌+◌, ◌-◌, ◌%◌, ◌^◌, ◌<◌, ◌≤◌, ◌≡◌, refl, inl, inr, true, false, none, some, List, [], ◌∷◌,
  arith, ltb, leb, nat_beq, if◌then◌else◌, Bool-cases, Elem, All, All-elem,
}
use custom_hts_legacy.Feeds.Ring.{
  ring_size, unset, minus, MarketTick, RingBuffer, min_cursor, pass_gate, write, wait_for, get,
}

min_cursor_below :
    (cs : List ℕ) (least : ℕ)
    → (min_cursor cs least ≤ least) × ((c : ℕ) → Elem c cs → min_cursor cs least ≤ c)
unfolding min_cursor
min_cursor_below [] least = (omega arith, λ c m. absurd m)
min_cursor_below (d ∷ cs) least =
    let (a, b) = min_cursor_below cs (if ltb d least then d else least) in
    (ground arith, λ c m. elim m [ inl e ↦ ground arith | inr rest ↦ b c rest ])

-- What a producer writes, number by number.
unfoldable pub write_all : List (ℕ × MarketTick) → RingBuffer → RingBuffer
unfolding write
write_all [] rb = rb
write_all ((seq, t) ∷ ws) rb = write_all ws (write seq t rb)

-- Writes of other numbers do not put a number into the flag of its slot.
flag_other :
    (seq : ℕ) (ws : List (ℕ × MarketTick)) (rb : RingBuffer)
    → nat_beq (rb.flags (seq % ring_size)) seq ≡ false
    → All (λ w. nat_beq w.0 seq ≡ false) ws
    → nat_beq ((write_all ws rb).flags (seq % ring_size)) seq ≡ false
unfolding write_all write
flag_other seq [] rb unset others = unset
flag_other seq ((n, t) ∷ ws) rb unset others =
    flag_other seq ws (write n t rb)
      (elim (Bool-cases (nat_beq (n % ring_size) (seq % ring_size))) [
        | inl same ↦ rw same (others.0)
        | inr apart ↦ rw apart unset
      ])
      others.1

-- Writes of later numbers, fewer than the ring is long, leave the slot of a number alone.
slot_kept :
    (seq : ℕ) (ws : List (ℕ × MarketTick)) (rb : RingBuffer)
    → All (λ w. (seq < w.0) × (w.0 < seq + ring_size)) ws
    → ((write_all ws rb).flags (seq % ring_size) ≡ rb.flags (seq % ring_size))
      × ((write_all ws rb).ticks (seq % ring_size) ≡ rb.ticks (seq % ring_size))
unfolding write_all write
slot_kept seq [] rb near = (refl, refl)
slot_kept seq ((n, t) ∷ ws) rb ((later, within), near) =
    let apart : nat_beq (n % ring_size) (seq % ring_size) ≡ false = ground arith in
    let (flags, ticks) = slot_kept seq ws (write n t rb) near in
    (flags ∙ rw apart refl, ticks ∙ rw apart refl)

-- A reader that waits for the next number gets nothing as long as only other numbers were written, whatever they
-- are, if the number's slot did not hold it before; once it is written, the reader gets the number, and reads what
-- was written, also after any writes of later numbers that are nearer than the ring is long.
pub write_then_read :
    (seq : ℕ) (t : MarketTick) (before after : List (ℕ × MarketTick)) (rb : RingBuffer)
    → 0 < seq
    → seq < 2 ^ 64
    → nat_beq (rb.flags (seq % ring_size)) seq ≡ false
    → All (λ w. nat_beq w.0 seq ≡ false) before
    → All (λ w. (seq < w.0) × (w.0 < seq + ring_size)) after
    → let unwritten = write_all before rb in
      let written = write_all after (write seq t unwritten) in
      (wait_for (seq - 1) unwritten ≡ none)
      × (wait_for (seq - 1) written ≡ some seq)
      × (get seq written ≡ t)
unfolding wait_for get write
write_then_read seq t before after rb positive small unset others near =
    let next : (seq - 1 + 1) % 2 ^ 64 ≡ seq = omega arith in
    let unwritten = write_all before rb in
    let own : nat_beq (seq % ring_size) (seq % ring_size) ≡ true = ground arith in
    let same : nat_beq seq seq ≡ true = ground arith in
    let (flags, ticks) = slot_kept seq after (write seq t unwritten) near in
    (
      rw (next, flag_other seq before rb unset others) refl,
      rw (next, flags, own, same) refl,
      rw (ticks, own) refl,
    )

-- Let every reader have started, so that no cursor is past the number. If the gate lets the number through
-- after it has looked at the cursors, then each reader has read what the number's slot held before.
pub gate_protects :
    (seq : ℕ) (rb rb' : RingBuffer) (c : ℕ)
    → seq < 2 ^ 64
    → ring_size < minus seq rb.gating_sequence_cache
    → pass_gate seq rb ≡ some rb'
    → Elem c rb.consumer_cursors
    → All (λ d. d ≤ seq) rb.consumer_cursors
    → seq ≤ c + ring_size
unfolding pass_gate
gate_protects seq rb rb' c small far passed here started =
    let (_, below) = min_cursor_below rb.consumer_cursors unset in
    let least_c = below c here in
    let c_seq = All-elem (λ d. d ≤ seq) rb.consumer_cursors c started here in
    elim (Bool-cases (leb (minus seq (min_cursor rb.consumer_cursors unset)) ring_size)) [
      | inl ok ↦ ground arith
      | inr ahead ↦ ground arith
    ]

-- In a new ring, the number that comes round to the first slot goes through the gate whatever the readers
-- have read: a reader that has not read the first number then waits for it in vain.
pub first_slot_overwritten :
    (rb : RingBuffer) (t : MarketTick)
    → rb.gating_sequence_cache ≡ 0
    → (pass_gate ring_size rb ≡ some rb) × (wait_for unset (write ring_size t rb) ≡ none)
unfolding pass_gate wait_for write
first_slot_overwritten rb t fresh = (rw fresh refl, refl)
