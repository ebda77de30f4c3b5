-- ===== src/Feeds/Breaker.antt =====
-- internal/core/pkg/circuitbreaker/circuitbreaker.go: goroutines that record failures and successes. A step
-- of a goroutine is one atomic operation, or one call of a callback; the callbacks called are kept, the last
-- one first.
use custom_hts_legacy.Prelude.{
  ℕ, zero, suc, Bool, true, false, none, some, List, [], ◌∷◌, if◌then◌else◌, get_elem?, set,
}
use custom_hts_legacy.Prelude.Int.{ℤ, pos, ◌+ℤ◌, int64, leb_ℤ}

pub data Callback : Type 0 where
  on_open : ℤ → Callback
  on_close : Callback

-- `has_on_close` tells whether `onClose` is not nil.
pub record Breaker : Type 0 where
  pub threshold : ℤ
  pub has_on_close : Bool
  pub count : ℤ
  pub opened : Bool
  pub called : List Callback

-- `New`.
unfoldable pub new : ℤ → Bool → Breaker
new threshold has_on_close = record {
  threshold = threshold;
  has_on_close = has_on_close;
  count = pos 0;
  opened = false;
  called = [];
}

-- Where a goroutine stands in `Fail` or `Success`.
pub data Pc : Type 0 where
  idle fail_load fail_add : Pc
  fail_swap opening : ℤ → Pc
  success_store success_swap closing : Pc

unfoldable pub advance : Pc → Breaker → Pc × Breaker
advance idle b = (idle, b)
advance fail_load b = (if b.opened then idle else fail_add, b)
advance fail_add b =
    let count = int64 (b.count +ℤ pos 1) in
    (if leb_ℤ b.threshold count then fail_swap count else idle, record b { count = count })
advance (fail_swap count) b =
    if b.opened then (idle, b) else (opening count, record b { opened = true })
advance (opening count) b = (idle, record b { called = on_open count ∷ b.called })
advance success_store b = (success_swap, record b { count = pos 0 })
advance success_swap b =
    if b.opened
    then (if b.has_on_close then closing else idle, record b { opened = false })
    else (idle, b)
advance closing b = (idle, record b { called = on_close ∷ b.called })

-- `Fail` and `Success` without another goroutine in between: at most four steps.
unfoldable pub finish : ℕ → Pc × Breaker → Breaker
unfolding advance
finish zero (pc, b) = b
finish (suc n) (pc, b) = finish n (advance pc b)

unfoldable pub fail : Breaker → Breaker
unfolding finish
fail b = finish 4 (fail_load, b)

unfoldable pub success : Breaker → Breaker
unfolding finish
success b = finish 3 (success_store, b)

-- The breaker with its goroutines.
pub record Pool : Type 0 where
  pub breaker : Breaker
  pub threads : List Pc

-- A goroutine that is idle calls `Fail` or `Success`, or one takes its next step.
pub data Turn : Type 0 where
  fails succeeds steps : ℕ → Turn

abbrev pub begin : Pc → Pc → Pc
begin idle start = start
begin pc start = pc

unfoldable pub start : ℕ → Pc → Pool → Pool
start i pc p = elim (get_elem? p.threads i) [
  | none ↦ p
  | some old ↦ record p { threads = set p.threads i (begin old pc) }
]

unfoldable pub advance_thread : ℕ → Pool → Pool
unfolding advance
advance_thread i p = elim (get_elem? p.threads i) [
  | none ↦ p
  | some old ↦ record {
    breaker = (advance old p.breaker).1;
    threads = set p.threads i (advance old p.breaker).0;
  }
]

unfoldable pub turn : Turn → Pool → Pool
unfolding start advance_thread
turn (fails i) p = start i fail_load p
turn (succeeds i) p = start i success_store p
turn (steps i) p = advance_thread i p

unfoldable pub turns : List Turn → Pool → Pool
unfolding turn
turns [] p = p
turns (t ∷ ts) p = turns ts (turn t p)
