-- ===== src/Ls/Stories.antt =====
-- internal/adapter/broker/ls/api/ws/slot.go: what is told of one connection.
use custom_hts_legacy.Prelude.{
  ℕ, ◌+◌, ◌-◌, ◌≤◌, ◌<◌, ◌≡◌, refl, sym, ◌∙◌, subst, false, Option, none, some, List, [], ◌∷◌, ◌++◌,
  arith, ltb, nat_beq, nat_beq_iff, nat_eq, ◌==◌, if◌then◌else◌, ◌⊎◌, inl, inr, Bool-cases, if_true,
  if_false,
}
use custom_hts_legacy.Prelude.Maps.{lookup}
use custom_hts_legacy.Ls.Slots.{
  ConnEvent, connected, reconnected, disconnected, reconnecting, Stage, reading, losing, lost,
  ConnState, up,
}

-- The connection that an event tells of.
abbrev pub generation_of : ConnEvent → ℕ
generation_of (connected n) = n + 1
generation_of (reconnected n) = n + 1
generation_of (disconnected n) = n + 1
generation_of (reconnecting n) = n

-- What is told of one connection, in order.
unfoldable pub story : ℕ → List ConnEvent → List ConnEvent
story g [] = []
story g (e ∷ es) = let rest = story g es in if nat_beq (generation_of e) g then e ∷ rest else rest

-- The story of a connection: nothing, or that it is up, and then that it is lost, and then that the next one is
-- awaited. Only the connections that were counted have one.
abbrev pub IsStory : ℕ → ℕ → List ConnEvent → Type 0
IsStory g count es =
    (es ≡ [])
    ⊎ ((0 < g)
        × (g ≤ count)
        × ((es ≡ up g ∷ [])
            ⊎ (es ≡ up g ∷ disconnected (g - 1) ∷ [])
            ⊎ (es ≡ up g ∷ disconnected (g - 1) ∷ reconnecting g ∷ [])))

-- What was told of a connection, by where its read loop stands.
abbrev pub Told : ℕ → Option Stage → List ConnEvent → Type 0
Told g none es =
    (es ≡ [])
    ⊎ ((0 < g) × ((es ≡ up g ∷ []) ⊎ (es ≡ up g ∷ disconnected (g - 1) ∷ reconnecting g ∷ [])))
Told g (some reading) es = (0 < g) × (es ≡ up g ∷ [])
Told g (some losing) es = (0 < g) × (es ≡ up g ∷ [])
Told g (some lost) es = (0 < g) × (es ≡ up g ∷ disconnected (g - 1) ∷ [])

pub record IsTold (s : ConnState) : Type 0 where
  pub pending : (c : ℕ) → s.connecting ≡ some c → c ≡ s.connect_count
  pub told : (g : ℕ) → Told g (lookup g s.loops) (story g s.events)
  pub fresh : (g : ℕ) → s.connect_count < g → story g s.events ≡ []
  pub unheard : (c : ℕ) → s.connecting ≡ some c → (0 < c) × (story c s.events ≡ [])

pub story-append :
    (g : ℕ) (es : List ConnEvent) (e : ConnEvent)
    → story g (es ++ (e ∷ []))
      ≡ (if nat_beq (generation_of e) g then story g es ++ (e ∷ []) else story g es)
unfolding story
story-append g [] e = refl
story-append g (d ∷ es) e = ground (arith, story-append g es e)

pub generation-up : (g : ℕ) → 0 < g → generation_of (up g) ≡ g
generation-up g positive = ground arith

-- An event of a connection adds to its story and to no other.
pub story_own :
    (g : ℕ) (es : List ConnEvent) (e : ConnEvent)
    → generation_of e ≡ g
    → story g (es ++ (e ∷ [])) ≡ story g es ++ (e ∷ [])
story_own g es e own =
    story-append g es e
    ∙ if_true (λ x. x ≡ story g es ++ (e ∷ [])) (nat_beq (generation_of e) g) _ _
        ((nat_beq_iff (generation_of e) g).1 own) refl

pub story_other :
    (g h : ℕ) (es : List ConnEvent) (e : ConnEvent)
    → generation_of e ≡ h
    → (h == g) ≡ false
    → story g (es ++ (e ∷ [])) ≡ story g es
story_other g h es e own other =
    story-append g es e
    ∙ if_false (λ x. x ≡ story g es) (nat_beq (generation_of e) g) _ _ (rw own other) refl

-- A step of one connection leaves what was told of the others.
abbrev pub Apart : ℕ → ConnState → ConnState → Type 0
Apart h s s' =
    (g : ℕ)
    → (h == g) ≡ false
    → (lookup g s'.loops ≡ lookup g s.loops) × (story g s'.events ≡ story g s.events)

pub changed :
    (h : ℕ) (s s' : ConnState)
    → Apart h s s'
    → Told h (lookup h s'.loops) (story h s'.events)
    → ((g : ℕ) → Told g (lookup g s.loops) (story g s.events))
    → (g : ℕ) → Told g (lookup g s'.loops) (story g s'.events)
changed h s s' apart here old g = elim (Bool-cases (h == g)) [
  | inl same ↦
      subst (λ j. Told j (lookup j s'.loops) (story j s'.events)) ((nat_beq_iff h g).0 same) here
  | inr other ↦
      let (at, told) = apart g other in
      subst (Told g (lookup g s'.loops)) (sym told)
        (subst (λ found. Told g found (story g s.events)) (sym at) (old g))
]

pub told_none : (g : ℕ) (es : List ConnEvent) → (0 < g) × (es ≡ up g ∷ []) → Told g none es
told_none g es (positive, e) = inr (positive, inl e)

pub not_beyond :
    (g count : ℕ) (es : List ConnEvent)
    → (count < g → es ≡ [])
    → (e : ConnEvent) (rest : List ConnEvent) → es ≡ e ∷ rest
    → g ≤ count
not_beyond g count es fresh e rest there = elim (Bool-cases (ltb count g)) [
  | inl beyond ↦ cc (fresh (ground arith))
  | inr within ↦ ground arith
]
