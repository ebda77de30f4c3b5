-- ===== src/Ls/Serving.antt =====
-- What internal/adapter/broker/ls/client keeps: the service has a route just while it has local subscribers,
-- and each of these has an open channel.
use custom_hts_legacy.Prelude.{
  ℕ, ◌≤◌, ◌<◌, ◌≡◌, refl, sym, ◌∙◌, ap, subst, Bool, true, false, ◌&&◌, not, Option, none, some,
  List, [], ◌∷◌, arith, nat_beq, nat_beq_iff, ◌==◌, nat_eq, if◌then◌else◌, inl, inr, length,
  Option-cases, is_some,
}
use custom_hts_legacy.Prelude.Texts.{Text, text_eq}
use custom_hts_legacy.Prelude.Maps.{lookup, lookup-insert}
use custom_hts_legacy.Ls.Fanout.{
  Kind, kind_beq_iff, kind_eq, tr_code_of, Channel, Route, Handle, subscribed, unsubscribed,
  History, Registry, route_key, has_id, close_channel, close_channels,
}

-- Whether the last call about the route that the service accepted was a subscription.
abbrev pub remote : History → Kind → Text → Bool
remote [] kind key = false
remote ((call, some e) ∷ h) kind key = remote h kind key
remote ((subscribed k tr_key, none) ∷ h) kind key =
    if k == kind && route_key (tr_code_of k) tr_key == key then true else remote h kind key
remote ((unsubscribed k tr_key, none) ∷ h) kind key =
    if k == kind && route_key (tr_code_of k) tr_key == key then false else remote h kind key

-- The route that a subscriber's handle names.
abbrev pub home_of : Option Handle → Option (Kind × Text)
home_of none = none
home_of (some h) = some (h.kind, route_key h.tr_code h.tr_key)

abbrev pub is_open_in : Option Channel → Bool
is_open_in none = false
is_open_in (some ch) = not ch.is_closed

abbrev pub is_open : List (ℕ × Channel) → ℕ → Bool
is_open channels id = is_open_in (lookup id channels)

abbrev pub Distinct : List ℕ → Type 0
Distinct [] = Unit
Distinct (i ∷ ids) = (has_id i ids ≡ false) × Distinct ids

abbrev pub IsLive : Registry → Kind → Text → ℕ → Type 0
IsLive r kind key id =
    (home_of (lookup id r.handles) ≡ some (kind, key))
    × (is_open r.channels id ≡ true)
    × (id ≤ r.next_subscriber_id)

pub record IsRoute (r : Registry) (kind : Kind) (key : Text) (route : Route) : Type 0 where
  pub live : (id : ℕ) → has_id id route.subscribers ≡ true → IsLive r kind key id
  pub some_there : 0 < length route.subscribers
  pub distinct : Distinct route.subscribers

pub record IsFanned (r : Registry) : Type 0 where
  pub safe : r.panicked ≡ false
  pub served :
      (kind : Kind) (key : Text) → remote r.history kind key ≡ is_some (lookup key (r.routes kind))
  pub coded :
      (id : ℕ) (h : Handle)
      → lookup id r.handles ≡ some h
      → (h.tr_code ≡ tr_code_of h.kind) × (id ≤ r.next_subscriber_id)
  pub routed :
      (kind : Kind) (key : Text) (route : Route)
      → lookup key (r.routes kind) ≡ some route
      → IsRoute r kind key route

-- What the close of a channel leaves as it was.
pub record SameBut (r r' : Registry) : Type 0 where
  pub routes : (kind : Kind) → r'.routes kind ≡ r.routes kind
  pub handles : r'.handles ≡ r.handles
  pub history : r'.history ≡ r.history
  pub next : r'.next_subscriber_id ≡ r.next_subscriber_id

module _ (id : ℕ) (r : Registry) where
  pub close_channel-SameBut : SameBut r (close_channel id r)
  unfolding close_channel
  close_channel-SameBut = ground arith

  pub close_channel-safe : is_open r.channels id ≡ true → (close_channel id r).panicked ≡ r.panicked
  unfolding close_channel
  close_channel-safe opened = ground arith

  pub close_channel-open :
      (j : ℕ)
      → is_open (close_channel id r).channels j
        ≡ (if nat_beq id j then false else is_open r.channels j)
  unfolding close_channel
  close_channel-open j = elim (Option-cases (lookup id r.channels)) [
    | inl gone ↦ ground (arith, nat_beq_iff id j)
    | inr (ch, found) ↦
        (ground
          (arith, nat_beq_iff id j, lookup-insert id j (record ch { is_closed = true }) r.channels))
  ]

close_channel-other :
    (id j : ℕ) (r : Registry)
    → nat_beq id j ≡ false
    → is_open (close_channel id r).channels j ≡ is_open r.channels j
close_channel-other id j r apart = ground (arith, close_channel-open id r j)

SameBut-trans : {r s t : Registry} → SameBut r s → SameBut s t → SameBut r t
SameBut-trans a b = record {
  routes = λ kind. b.routes kind ∙ a.routes kind;
  handles = b.handles ∙ a.handles;
  history = b.history ∙ a.history;
  next = b.next ∙ a.next;
}

pub close_channels-SameBut : (ids : List ℕ) (r : Registry) → SameBut r (close_channels ids r)
unfolding close_channels
close_channels-SameBut [] r = record {
  routes = λ kind. refl;
  handles = refl;
  history = refl;
  next = refl;
}
close_channels-SameBut (id ∷ ids) r =
    SameBut-trans (close_channel-SameBut id r) (close_channels-SameBut ids (close_channel id r))

pub close_channels-other :
    (ids : List ℕ) (j : ℕ) (r : Registry)
    → has_id j ids ≡ false
    → is_open (close_channels ids r).channels j ≡ is_open r.channels j
unfolding close_channels
close_channels-other [] j r h = refl
close_channels-other (id ∷ ids) j r h =
    close_channels-other ids j (close_channel id r) (ground arith)
    ∙ close_channel-other id j r (ground arith)

pub close_channels-safe :
    (ids : List ℕ) (r : Registry)
    → Distinct ids
    → ((id : ℕ) → has_id id ids ≡ true → is_open r.channels id ≡ true)
    → (close_channels ids r).panicked ≡ r.panicked
unfolding close_channels
close_channels-safe [] r d h = refl
close_channels-safe (id ∷ ids) r (fresh, d) h =
    close_channels-safe ids (close_channel id r) d
      (λ j m. close_channel-other id j r (ground (arith, nat_beq_iff id j)) ∙ h j (ground arith))
    ∙ close_channel-safe id r (h id (ground (arith, nat_beq_iff id id)))

pub both_tests :
    (kind kind' : Kind) (key key' : Text)
    → (kind' == kind && key' == key) ≡ true
    → (kind' ≡ kind) × (key' ≡ key)
both_tests kind kind' key key' e = ground (arith, kind_beq_iff kind' kind, text_eq.beq_iff key' key)

pub same_route :
    (P : Kind → Text → Type 0) (kind kind' : Kind) (key key' : Text)
    → (kind' == kind && key' == key) ≡ true
    → P kind key
    → P kind' key'
same_route P kind kind' key key' e p =
    let (a, b) = both_tests kind kind' key key' e in
    subst (λ k. P k key') (sym a) (subst (λ y. P kind y) (sym b) p)

-- What does not touch the routes, the handles and the closes of channels keeps the invariant.
pub record IsKept (r r' : Registry) : Type 0 where
  pub safe : r'.panicked ≡ r.panicked
  pub routes : (kind : Kind) → r'.routes kind ≡ r.routes kind
  pub handles : r'.handles ≡ r.handles
  pub next : r'.next_subscriber_id ≡ r.next_subscriber_id
  pub opens : (id : ℕ) → is_open r'.channels id ≡ is_open r.channels id
  pub calls : (kind : Kind) (key : Text) → remote r'.history kind key ≡ remote r.history kind key

module _ (r r' : Registry) (k : IsKept r r') where
  kept-IsRoute :
      (kind : Kind) (key : Text) (route : Route)
      → IsRoute r kind key route
      → IsRoute r' kind key route
  kept-IsRoute kind key route old = record {
    live = λ id m.
        let (home, opened, known) = old.live id m in
        (ap home_of (ap (lookup id) k.handles) ∙ home, k.opens id ∙ opened, omega (arith, k.next));
    some_there = old.some_there;
    distinct = old.distinct;
  }

  pub kept-IsFanned : IsFanned r → IsFanned r'
  kept-IsFanned f = record {
    safe = k.safe ∙ f.safe;
    served = λ kind key.
        k.calls kind key
        ∙ f.served kind key
        ∙ ap (λ t. is_some (lookup key t)) (sym (k.routes kind));
    coded = λ id h there. rw k.next (f.coded id h (rw k.handles at there));
    routed = λ kind key route there.
        kept-IsRoute kind key route
          (f.routed kind key route (ap (lookup key) (sym (k.routes kind)) ∙ there));
  }
