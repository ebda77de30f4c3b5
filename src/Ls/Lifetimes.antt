-- ===== src/Ls/Lifetimes.antt =====
-- What internal/adapter/broker/ls/api/ws/slot.go reports of each connection of a slot, whatever goroutines do between
-- the steps of one another.
use custom_hts_legacy.Prelude.{
  ℕ, ◌+◌, ◌-◌, ◌≤◌, ◌<◌, ◌≡◌, refl, sym, ◌∙◌, ap, subst, false, ◌||◌, not, Option, none, some, List,
  [], ◌∷◌, ◌++◌, arith, nat_beq, nat_beq_iff, nat_eq, ◌==◌, inl, inr, Bool-cases, if_true, if_false,
}
use custom_hts_legacy.Prelude.Maps.{
  lookup, insert, delete, lookup-insert_self, lookup-insert_ne, lookup-delete_self,
  lookup-delete_ne,
}
use custom_hts_legacy.Ls.Slots.{
  ConnEvent, disconnected, reconnecting, Stage, reading, losing, lost, ConnState, new_conn_slot,
  handle_status, up, counted, count_connection, announced, announce, failed, handle_read_failure,
  reported, report_loss, stop, Turn, connects, announces, stops, fails, reports, turn, turns,
}
use custom_hts_legacy.Ls.Stories.{
  generation_of, story, IsStory, Told, IsTold, generation-up, story_own, story_other, changed,
  told_none, not_beyond,
}

module _ (s : ConnState) (p : IsTold s) where
  first_event :
      (g : ℕ) (st : Stage)
      → Told g (some st) (story g s.events)
      → (e : ConnEvent) × (rest : List ConnEvent) × (story g s.events ≡ e ∷ rest)
  first_event g reading (_, e) = (_, _, e)
  first_event g losing (_, e) = (_, _, e)
  first_event g lost (_, e) = (_, _, e)

  -- A connection that has a read loop was counted, and is not the one that is still to be told of.
  loop_known :
      (g : ℕ) (st : Stage)
      → lookup g s.loops ≡ some st
      → (g ≤ s.connect_count) × ((c : ℕ) → s.connecting ≡ some c → (g == c) ≡ false)
  loop_known g st at =
      let here = subst (λ found. Told g found (story g s.events)) at (p.told g) in
      let (e, rest, there) = first_event g st here in
      (
        not_beyond g s.connect_count (story g s.events) (p.fresh g) e rest there,
        (λ c waits. elim (Bool-cases (g == c)) [
          | inr other ↦ other
          | inl same ↦
              let unheard : story g s.events ≡ [] =
                subst (λ j. story j s.events ≡ []) (sym ((nat_beq_iff g c).0 same))
                  (p.unheard c waits).1 in
              cc (sym there ∙ unheard)
        ]),
      )

  -- A step of the read loop of a connection.
  module _ (g : ℕ) (st : Stage) (at : lookup g s.loops ≡ some st) where
    here : Told g (some st) (story g s.events)
    here = subst (λ found. Told g found (story g s.events)) at (p.told g)

    loop-IsTold :
        (loops : List (ℕ × Stage))
        → ((h : ℕ) → (g == h) ≡ false → lookup h loops ≡ lookup h s.loops)
        → Told g (lookup g loops) (story g s.events)
        → IsTold (record s { loops = loops })
    loop-IsTold loops others now = record {
      pending = p.pending;
      told =
          changed g s (record s { loops = loops }) (λ h other. (others h other, refl)) now p.told;
      fresh = p.fresh;
      unheard = p.unheard;
    }

    event-IsTold :
        (e : ConnEvent) (loops : List (ℕ × Stage))
        → generation_of e ≡ g
        → ((h : ℕ) → (g == h) ≡ false → lookup h loops ≡ lookup h s.loops)
        → Told g (lookup g loops) (story g s.events ++ (e ∷ []))
        → IsTold (handle_status e (record s { loops = loops }))
    event-IsTold e loops own others now =
        let (within, apart) = loop_known g st at in
        record {
          pending = p.pending;
          told =
              changed g s (handle_status e (record s { loops = loops }))
                (λ h other. (others h other, story_other h g s.events e own other))
                (subst (Told g (lookup g loops)) (sym (story_own g s.events e own)) now) p.told;
          fresh = λ h beyond.
              story_other h g s.events e own (ground (arith, nat_beq_iff g h)) ∙ p.fresh h beyond;
          unheard = λ c waits. (
            (p.unheard c waits).0,
            story_other c g s.events e own (apart c waits) ∙ (p.unheard c waits).1,
          );
        }

  failed-IsTold :
      (g : ℕ) (found : Option Stage) → lookup g s.loops ≡ found → IsTold (failed found g s)
  failed-IsTold g none at = p
  failed-IsTold g (some losing) at = p
  failed-IsTold g (some lost) at = p
  failed-IsTold g (some reading) at =
      elim (Bool-cases (s.stopping || not (nat_beq g s.connect_count))) [
        | inl stale ↦ if_true IsTold (s.stopping || not (nat_beq g s.connect_count)) _ _ stale (
            loop-IsTold g reading at (delete g s.loops)
              (λ h other. lookup-delete_ne g h s.loops other)
              (subst (λ found. Told g found (story g s.events)) (sym (lookup-delete_self g s.loops))
                (told_none g (story g s.events) (here g reading at))))
        | inr live ↦ if_false IsTold (s.stopping || not (nat_beq g s.connect_count)) _ _ live (
            loop-IsTold g reading at (insert g losing s.loops)
              (λ h other. lookup-insert_ne g h losing s.loops other)
              (subst (λ found. Told g found (story g s.events))
                (sym (lookup-insert_self g losing s.loops)) (here g reading at)))
      ]

  reported-IsTold :
      (g : ℕ) (found : Option Stage) → lookup g s.loops ≡ found → IsTold (reported found g s)
  reported-IsTold g none at = p
  reported-IsTold g (some reading) at = p
  reported-IsTold g (some losing) at =
      let (positive, told) = here g losing at in
      event-IsTold g losing at (disconnected (g - 1)) (insert g lost s.loops) (omega arith)
        (λ h other. lookup-insert_ne g h lost s.loops other)
        (subst (λ found. Told g found (story g s.events ++ (disconnected (g - 1) ∷ [])))
          (sym (lookup-insert_self g lost s.loops))
          (positive, ap (λ es. es ++ (disconnected (g - 1) ∷ [])) told))
  reported-IsTold g (some lost) at =
      let (positive, told) = here g lost at in
      event-IsTold g lost at (reconnecting g) (delete g s.loops) refl
        (λ h other. lookup-delete_ne g h s.loops other)
        (subst (λ found. Told g found (story g s.events ++ (reconnecting g ∷ [])))
          (sym (lookup-delete_self g s.loops))
          (inr (positive, inr (ap (λ es. es ++ (reconnecting g ∷ [])) told))))

  counted-IsTold : (waits : Option ℕ) → s.connecting ≡ waits → IsTold (counted waits s)
  counted-IsTold (some c) same = p
  counted-IsTold none same = elim (Bool-cases s.stopping) [
    | inl over ↦ if_true IsTold s.stopping _ _ over p
    | inr running ↦ if_false IsTold s.stopping _ _ running (record {
      pending = λ c e. cc;
      told = p.told;
      fresh = λ g beyond. p.fresh g (omega (arith, beyond));
      unheard = λ c e.
          let next : s.connect_count + 1 ≡ c = cc in
          (omega (arith, next), p.fresh c (omega (arith, next)));
    })
  ]

  announced-IsTold : (waits : Option ℕ) → s.connecting ≡ waits → IsTold (announced waits s)
  announced-IsTold none same = p
  announced-IsTold (some g) same =
      let (positive, silent) = p.unheard g same in
      let own = generation-up g positive in
      let first : story g (s.events ++ (up g ∷ [])) ≡ up g ∷ [] =
        story_own g s.events (up g) own ∙ ap (λ es. es ++ (up g ∷ [])) silent in
      record {
        pending = λ c e. cc;
        told =
            changed g s (announced (some g) s)
              (λ h other. (
                lookup-insert_ne g h reading s.loops other,
                story_other h g s.events (up g) own other,
              ))
              (subst (λ found. Told g found (story g (s.events ++ (up g ∷ []))))
                (sym (lookup-insert_self g reading s.loops)) (positive, first))
              p.told;
        fresh = λ h beyond.
            story_other h g s.events (up g) own
              (ground (arith, nat_beq_iff g h, p.pending g same, beyond))
            ∙ p.fresh h beyond;
        unheard = λ c e. cc;
      }

pub turn-IsTold : (t : Turn) (s : ConnState) → IsTold s → IsTold (turn t s)
unfolding turn count_connection announce handle_read_failure report_loss stop
turn-IsTold connects s p = counted-IsTold s p s.connecting refl
turn-IsTold announces s p = announced-IsTold s p s.connecting refl
turn-IsTold stops s p = record {
  pending = p.pending;
  told = p.told;
  fresh = p.fresh;
  unheard = p.unheard;
}
turn-IsTold (fails g) s p = failed-IsTold s p g (lookup g s.loops) refl
turn-IsTold (reports g) s p = reported-IsTold s p g (lookup g s.loops) refl

pub turns-IsTold : (ts : List Turn) (s : ConnState) → IsTold s → IsTold (turns ts s)
unfolding turns
turns-IsTold [] s p = p
turns-IsTold (t ∷ ts) s p = turns-IsTold ts (turn t s) (turn-IsTold t s p)

pub new-IsTold : IsTold new_conn_slot
unfolding new_conn_slot lookup story
new-IsTold = record {
  pending = λ c e. cc;
  told = λ g. inl refl;
  fresh = λ g beyond. refl;
  unheard = λ c e. cc;
}

IsStory-of :
    (g count : ℕ) (found : Option Stage) (es : List ConnEvent)
    → (count < g → es ≡ [])
    → Told g found es
    → IsStory g count es
IsStory-of g count none es fresh (inl e) = inl e
IsStory-of g count none es fresh (inr (positive, inl e)) =
    inr (positive, not_beyond g count es fresh _ _ e, inl e)
IsStory-of g count none es fresh (inr (positive, inr e)) =
    inr (positive, not_beyond g count es fresh _ _ e, inr (inr e))
IsStory-of g count (some reading) es fresh (positive, e) =
    inr (positive, not_beyond g count es fresh _ _ e, inl e)
IsStory-of g count (some losing) es fresh (positive, e) =
    inr (positive, not_beyond g count es fresh _ _ e, inl e)
IsStory-of g count (some lost) es fresh (positive, e) =
    inr (positive, not_beyond g count es fresh _ _ e, inr (inl e))

-- However the steps of the connect callback, of the read loops and of the stop follow one another, what a slot
-- tells of each of its connections is a beginning of one story: `Connected` for the first connection and
-- `Reconnected` for a later one, with the number of those before it, then `Disconnected` with the same number, then
-- `Reconnecting` with its own. Nothing is told of a connection that was not counted. Between the events of one
-- connection there may be events of others.
pub turns_accepted :
    (ts : List Turn) (g : ℕ)
    → let s = turns ts new_conn_slot in IsStory g s.connect_count (story g s.events)
turns_accepted ts g =
    let s = turns ts new_conn_slot in
    let p = turns-IsTold ts new_conn_slot new-IsTold in
    IsStory-of g s.connect_count (lookup g s.loops) (story g s.events) (p.fresh g) (p.told g)
