-- ===== src/Feeds/Openings.antt =====
-- The callbacks of internal/core/pkg/circuitbreaker against the openings of the breaker.
use custom_hts_legacy.Prelude.{
  ℕ, zero, suc, ◌+◌, ◌<◌, ◌^◌, ◌≡◌, refl, ◌∙◌, leb, inl, inr, Bool, true, false, some, List, [],
  ◌∷◌, arith, if◌then◌else◌, get_elem?, set, Bool-cases, Option-cases,
}
use custom_hts_legacy.Prelude.Int.{pos, ◌+ℤ◌, int64, int64-of_Fits64, leb_ℤ}
use custom_hts_legacy.Prelude.Wrap.{pos-+ℤ}
use custom_hts_legacy.Feeds.Breaker.{
  Callback, on_open, on_close, Breaker, new, Pc, idle, fail_load, fail_add, fail_swap, opening,
  success_store, success_swap, closing, advance, finish, fail, Pool, Turn, begin, fails, succeeds,
  steps, start, advance_thread, turn, turns,
}

unfoldable pub opens : List Callback → ℕ
opens [] = 0
opens (on_open n ∷ cs) = suc (opens cs)
opens (on_close ∷ cs) = opens cs

unfoldable pub closes : List Callback → ℕ
closes [] = 0
closes (on_open n ∷ cs) = closes cs
closes (on_close ∷ cs) = suc (closes cs)

abbrev pub opens_next : Pc → ℕ
opens_next (opening n) = 1
opens_next _ = 0

abbrev pub closes_next : Pc → ℕ
closes_next closing = 1
closes_next _ = 0

unfoldable pub sum_over : (Pc → ℕ) → List Pc → ℕ
sum_over f [] = 0
sum_over f (pc ∷ pcs) = f pc + sum_over f pcs

sum_over-set :
    (f : Pc → ℕ) (pcs : List Pc) (i : ℕ) (old new_pc : Pc)
    → get_elem? pcs i ≡ some old
    → sum_over f (set pcs i new_pc) + f old ≡ sum_over f pcs + f new_pc
unfolding sum_over
sum_over-set f [] i old new_pc h = cc
sum_over-set f (pc ∷ pcs) zero old new_pc h = ground arith
sum_over-set f (pc ∷ pcs) (suc i) old new_pc h = ground (arith, sum_over-set f pcs i old new_pc h)

abbrev pub one_if : Bool → ℕ
one_if true = 1
one_if false = 0

-- The calls of `onOpen`, made or due, exceed those of `onClose` by one just if the breaker is open.
abbrev pub IsBalanced : Pool → Type 0
IsBalanced p =
    opens p.breaker.called + sum_over opens_next p.threads
    ≡ closes p.breaker.called + sum_over closes_next p.threads + one_if p.breaker.opened

advance_balance :
    (pc : Pc) (b : Breaker)
    → b.has_on_close ≡ true
    → let (pc', b') = advance pc b in
      (opens b'.called + opens_next pc' + (closes b.called + closes_next pc + one_if b.opened)
        ≡ opens b.called + opens_next pc + (closes b'.called + closes_next pc' + one_if b'.opened))
      × (b'.has_on_close ≡ true)
unfolding advance opens closes
advance_balance idle b h = (ground arith, h)
advance_balance fail_load b h = (ground arith, h)
advance_balance fail_add b h = (ground arith, h)
advance_balance (fail_swap n) b h = (ground arith, ground arith)
advance_balance (opening n) b h = (ground arith, h)
advance_balance success_store b h = (ground arith, h)
advance_balance success_swap b h = (ground arith, ground arith)
advance_balance closing b h = (ground arith, h)

set-IsBalanced :
    (p : Pool) (i : ℕ) (old new_pc : Pc) (b : Breaker)
    → get_elem? p.threads i ≡ some old
    → IsBalanced p
    → opens b.called
        + opens_next new_pc
        + (closes p.breaker.called + closes_next old + one_if p.breaker.opened)
      ≡ opens p.breaker.called
        + opens_next old
        + (closes b.called + closes_next new_pc + one_if b.opened)
    → IsBalanced (record { breaker = b; threads = set p.threads i new_pc })
set-IsBalanced p i old new_pc b here v step =
    let o = sum_over-set opens_next p.threads i old new_pc here in
    let c = sum_over-set closes_next p.threads i old new_pc here in omega arith

start-IsBalanced :
    (i : ℕ) (pc : Pc) (p : Pool)
    → opens_next pc ≡ 0
    → closes_next pc ≡ 0
    → p.breaker.has_on_close ≡ true
    → IsBalanced p
    → IsBalanced (start i pc p) × ((start i pc p).breaker.has_on_close ≡ true)
unfolding start
start-IsBalanced i pc p no_open no_close h v = elim (Option-cases (get_elem? p.threads i)) [
  | inl absent ↦ rw (absent, start) (v, h)
  | inr (old, here) ↦
      let (o, c) = begin_weight old in
      rw (here, start) (set-IsBalanced p i old (begin old pc) p.breaker here v (omega arith), h)
]
  where
    begin_weight :
        (old : Pc)
        → (opens_next (begin old pc) ≡ opens_next old)
          × (closes_next (begin old pc) ≡ closes_next old)
    begin_weight idle = (no_open, no_close)
    begin_weight fail_load = (refl, refl)
    begin_weight fail_add = (refl, refl)
    begin_weight (fail_swap n) = (refl, refl)
    begin_weight (opening n) = (refl, refl)
    begin_weight success_store = (refl, refl)
    begin_weight success_swap = (refl, refl)
    begin_weight closing = (refl, refl)

turn-IsBalanced :
    (t : Turn) (p : Pool)
    → p.breaker.has_on_close ≡ true
    → IsBalanced p
    → IsBalanced (turn t p) × ((turn t p).breaker.has_on_close ≡ true)
unfolding turn advance_thread
turn-IsBalanced (fails i) p h v = start-IsBalanced i fail_load p refl refl h v
turn-IsBalanced (succeeds i) p h v = start-IsBalanced i success_store p refl refl h v
turn-IsBalanced (steps i) p h v = elim (Option-cases (get_elem? p.threads i)) [
  | inl absent ↦ rw (absent, advance_thread) (v, h)
  | inr (old, here) ↦
      let (step, h') = advance_balance old p.breaker h in
      rw (here, advance_thread)
        (set-IsBalanced p i old (advance old p.breaker).0 (advance old p.breaker).1 here v step, h')
]

-- In every interleaving of goroutines that record failures and successes, `onOpen` is called once for each
-- opening: the calls of `onOpen`, made or due, exceed those of `onClose`, made or due, by one while the
-- breaker is open, and are as many while it is closed. (With an `onClose`, and if it holds at first.)
pub turns-IsBalanced :
    (ts : List Turn) (p : Pool)
    → p.breaker.has_on_close ≡ true
    → IsBalanced p
    → IsBalanced (turns ts p)
unfolding turns
turns-IsBalanced [] p h v = v
turns-IsBalanced (t ∷ ts) p h v =
    let (next, h') = turn-IsBalanced t p h v in turns-IsBalanced ts (turn t p) h' next

unfoldable pub failures : ℕ → Breaker → Breaker
unfolding fail
failures zero b = b
failures (suc n) b = fail (failures n b)

fail_opened : (b : Breaker) → b.opened ≡ true → fail b ≡ b
unfolding fail finish advance
fail_opened b open_now = rw (open_now, fail, finish, advance) refl

fail_counts :
    (b : Breaker) (n t : ℕ)
    → b.opened ≡ false
    → b.count ≡ pos n
    → b.threshold ≡ pos t
    → suc n < 2 ^ 63
    → fail b ≡ (
        if leb t (suc n)
        then record b {
          count = pos (suc n);
          opened = true;
          called = on_open (pos (suc n)) ∷ b.called;
        }
        else record b { count = pos (suc n) })
unfolding fail finish advance
fail_counts b n t closed count threshold small =
    let next : n + 1 ≡ suc n = omega arith in
    let one_more : int64 (pos n +ℤ pos 1) ≡ pos (suc n) =
      rw (pos-+ℤ n 1, next) (int64-of_Fits64 (pos (suc n)) (omega arith, omega arith)) in
    elim (Bool-cases (leb t (suc n))) [
      | inl reached ↦
          let passed : leb_ℤ (pos t) (pos (suc n)) ≡ true = ground arith in
          rw (closed, count, threshold, one_more, reached, passed, fail, finish, advance) refl
      | inr below ↦
          let short : leb_ℤ (pos t) (pos (suc n)) ≡ false = ground arith in
          rw (closed, count, threshold, one_more, below, short, fail, finish, advance) refl
    ]

-- A new breaker with a positive threshold counts failures one after the other; it opens with the one that
-- reaches the threshold, calls `onOpen` with the threshold then, and neither counts nor calls any more.
pub failures_open :
    (n t : ℕ) (has_on_close : Bool)
    → 0 < t
    → t < 2 ^ 63
    → failures n (new (pos t) has_on_close) ≡ (
        if leb t n
        then record (new (pos t) has_on_close) {
          count = pos t;
          opened = true;
          called = on_open (pos t) ∷ [];
        }
        else record (new (pos t) has_on_close) { count = pos n })
unfolding failures new
failures_open zero t has_on_close some_t small =
    let closed : leb t 0 ≡ false = ground arith in rw closed refl
failures_open (suc n) t has_on_close some_t small = elim (Bool-cases (leb t n)) [
  | inl open_now ↦
      let before : failures n (new (pos t) has_on_close) ≡ reached =
        failures_open n t has_on_close some_t small ∙ rw open_now refl in
      let later : leb t (suc n) ≡ true = ground arith in
      rw (before, later) (fail_opened reached refl)
  | inr closed ↦
      let before : failures n (new (pos t) has_on_close) ≡ counted =
        failures_open n t has_on_close some_t small ∙ rw closed refl in
      rw before (
        fail_counts counted n t refl refl refl (ground arith) ∙ elim (Bool-cases (leb t (suc n))) [
          | inl now ↦ let e : t ≡ suc n = ground arith in rw (now, e) refl
          | inr later ↦ rw later refl
        ])
]
  where
    reached : Breaker
    reached = record (new (pos t) has_on_close) {
      count = pos t;
      opened = true;
      called = on_open (pos t) ∷ [];
    }

    counted : Breaker
    counted = record (new (pos t) has_on_close) { count = pos n }
