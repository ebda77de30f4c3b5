-- ===== src/Ls/Losses.antt =====
-- Which losses internal/adapter/broker/ls/api/ws/slot.go reports.
use custom_hts_legacy.Prelude.{
  ℕ, ◌-◌, ◌<◌, ◌≡◌, refl, sym, ◌∙◌, subst, false, ◌||◌, not, Option, none, some, List, [], ◌∷◌,
  ◌++◌, arith, nat_beq, nat_beq_iff, nat_eq, ◌==◌, ◌⊎◌, inl, inr, Bool-cases, if_true, if_false,
}
use custom_hts_legacy.Prelude.Maps.{
  lookup, insert, delete, lookup-insert_ne, lookup-delete_self, lookup-delete_ne,
}
use custom_hts_legacy.Ls.Slots.{
  ConnEvent, disconnected, reconnecting, Stage, reading, losing, lost, ConnState, new_conn_slot,
  handle_status, up, counted, count_connection, announced, announce, failed, handle_read_failure,
  reported, report_loss, stop, Turn, connects, announces, stops, fails, reports, turn, turns,
}
use custom_hts_legacy.Ls.Stories.{story, Told, IsTold, generation-up, story_other}
use custom_hts_legacy.Ls.Lifetimes.{turn-IsTold, turns-IsTold, new-IsTold}

-- A newer connection was counted while the read loop of `g` still read, or the loop has ended since.
record IsStale (g : ℕ) (s : ConnState) : Type 0 where
  later : g < s.connect_count
  at : (lookup g s.loops ≡ some reading) ⊎ (lookup g s.loops ≡ none)
  silent : story g s.events ≡ up g ∷ []

module _ (g : ℕ) (s : ConnState) (p : IsTold s) (q : IsStale g s) where
  counted-IsStale : (waits : Option ℕ) → IsStale g (counted waits s)
  counted-IsStale (some c) = q
  counted-IsStale none = elim (Bool-cases s.stopping) [
    | inl over ↦ if_true (IsStale g) s.stopping _ _ over q
    | inr running ↦
        if_false (IsStale g) s.stopping _ _ running
          (record { later = omega (arith, q.later); at = q.at; silent = q.silent })
  ]

  announced-IsStale : (waits : Option ℕ) → s.connecting ≡ waits → IsStale g (announced waits s)
  announced-IsStale none same = q
  announced-IsStale (some c) same =
      let other : (c == g) ≡ false = ground (arith, nat_beq_iff c g, p.pending c same, q.later) in
      record {
        later = q.later;
        at =
            subst (λ found. (found ≡ some reading) ⊎ (found ≡ none))
              (sym (lookup-insert_ne c g reading s.loops other)) q.at;
        silent =
            story_other g c s.events (up c) (generation-up c (p.unheard c same).0) other ∙ q.silent;
      }

  -- The loop of another connection takes a step.
  moved-IsStale :
      (loops : List (ℕ × Stage))
      → lookup g loops ≡ lookup g s.loops
      → IsStale g (record s { loops = loops })
  moved-IsStale loops same = record {
    later = q.later;
    at = subst (λ found. (found ≡ some reading) ⊎ (found ≡ none)) (sym same) q.at;
    silent = q.silent;
  }

  told-IsStale :
      (h : ℕ) (e : ConnEvent) (loops : List (ℕ × Stage))
      → (h == g) ≡ false
      → lookup g loops ≡ lookup g s.loops
      → story g (s.events ++ (e ∷ [])) ≡ story g s.events
      → IsStale g (handle_status e (record s { loops = loops }))
  told-IsStale h e loops other same told = record {
    later = q.later;
    at = subst (λ found. (found ≡ some reading) ⊎ (found ≡ none)) (sym same) q.at;
    silent = told ∙ q.silent;
  }

  -- The stale loop is not between its reports.
  not_losing :
      (h : ℕ) (st : Stage) → lookup h s.loops ≡ some st → (st ≡ reading → ⊥) → (h == g) ≡ false
  not_losing h st here quiet = elim (Bool-cases (h == g)) [
    | inr other ↦ other
    | inl same ↦
        let there : lookup g s.loops ≡ some st =
          subst (λ j. lookup j s.loops ≡ some st) ((nat_beq_iff h g).0 same) here in
        elim q.at [ inl reads ↦ let e : st ≡ reading = cc in absurd (quiet e) | inr ended ↦ cc ]
  ]

  failed-IsStale :
      (h : ℕ) (found : Option Stage) → lookup h s.loops ≡ found → IsStale g (failed found h s)
  failed-IsStale h none here = q
  failed-IsStale h (some losing) here = q
  failed-IsStale h (some lost) here = q
  failed-IsStale h (some reading) here =
      elim (Bool-cases (s.stopping || not (nat_beq h s.connect_count))) [
        | inl stale ↦
            if_true (IsStale g) (s.stopping || not (nat_beq h s.connect_count)) _ _ stale
              (elim (Bool-cases (h == g)) [
                | inr other ↦ moved-IsStale (delete h s.loops) (lookup-delete_ne h g s.loops other)
                | inl same ↦ record {
                  later = q.later;
                  at = inr (
                      subst (λ j. lookup j (delete h s.loops) ≡ none) ((nat_beq_iff h g).0 same)
                        (lookup-delete_self h s.loops));
                  silent = q.silent;
                }
              ])
        | inr live ↦
            let other : (h == g) ≡ false =
              ground (arith, nat_beq_iff h g, nat_beq_iff h s.connect_count, q.later) in
            if_false (IsStale g) (s.stopping || not (nat_beq h s.connect_count)) _ _ live
              (moved-IsStale (insert h losing s.loops) (lookup-insert_ne h g losing s.loops other))
      ]

  reported-IsStale :
      (h : ℕ) (found : Option Stage) → lookup h s.loops ≡ found → IsStale g (reported found h s)
  reported-IsStale h none here = q
  reported-IsStale h (some reading) here = q
  reported-IsStale h (some losing) here =
      let other = not_losing h losing here (λ e. cc) in
      let (positive, _) = subst (λ found. Told h found (story h s.events)) here (p.told h) in
      told-IsStale h (disconnected (h - 1)) (insert h lost s.loops) other
        (lookup-insert_ne h g lost s.loops other)
        (story_other g h s.events (disconnected (h - 1)) (omega arith) other)
  reported-IsStale h (some lost) here =
      let other = not_losing h lost here (λ e. cc) in
      told-IsStale h (reconnecting h) (delete h s.loops) other (lookup-delete_ne h g s.loops other)
        (story_other g h s.events (reconnecting h) refl other)

turn-IsStale : (t : Turn) (g : ℕ) (s : ConnState) → IsTold s → IsStale g s → IsStale g (turn t s)
unfolding turn count_connection announce handle_read_failure report_loss stop
turn-IsStale connects g s p q = counted-IsStale g s p q s.connecting
turn-IsStale announces g s p q = announced-IsStale g s p q s.connecting refl
turn-IsStale stops g s p q = record { later = q.later; at = q.at; silent = q.silent }
turn-IsStale (fails h) g s p q = failed-IsStale g s p q h (lookup h s.loops) refl
turn-IsStale (reports h) g s p q = reported-IsStale g s p q h (lookup h s.loops) refl

turns-IsStale :
    (ts : List Turn) (g : ℕ) (s : ConnState) → IsTold s → IsStale g s → IsStale g (turns ts s)
unfolding turns
turns-IsStale [] g s p q = q
turns-IsStale (t ∷ ts) g s p q =
    turns-IsStale ts g (turn t s) (turn-IsTold t s p) (turn-IsStale t g s p q)

-- When a newer connection has been counted while the read loop of an older one still reads, the loss of the older
-- one is never told of, whatever follows: that it came up stays all that is told of it.
pub stale_reader_silent :
    (before after : List Turn) (g : ℕ)
    → lookup g (turns before new_conn_slot).loops ≡ some reading
    → g < (turns before new_conn_slot).connect_count
    → story g (turns after (turns before new_conn_slot)).events ≡ up g ∷ []
stale_reader_silent before after g reads later =
    let s = turns before new_conn_slot in
    let p = turns-IsTold before new_conn_slot new-IsTold in
    let (_, told) = subst (λ found. Told g found (story g s.events)) reads (p.told g) in
    (turns-IsStale after g s p (record { later = later; at = inl reads; silent = told })).silent
