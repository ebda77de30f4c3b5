-- ===== src/Ls/Delivering.antt =====
-- internal/adapter/broker/ls/client: what a published message does to the channels, and a receive.
use custom_hts_legacy.Prelude.{
  ℕ, ◌≡◌, refl, sym, ◌∙◌, ap, subst, Bool, true, false, Option, none, some, List, [], ◌∷◌, ◌++◌,
  arith, ltb, nat_beq, nat_beq_iff, nat_eq, if◌then◌else◌, inl, inr, length, Bool-cases,
  Option-cases, is_some,
}
use custom_hts_legacy.Prelude.Texts.{text_eq}
use custom_hts_legacy.Prelude.Maps.{lookup, insert, lookup-insert, lookup-insert_self}
use custom_hts_legacy.Ls.Fanout.{
  Kind, Channel, Route, Message, Registry, route_key, has_id, subscription_buf, offer, offer_all,
  emit_channel_full, publish,
}
use custom_hts_legacy.Ls.Handles.{receive, taken}
use custom_hts_legacy.Ls.Serving.{
  remote, is_open, is_open_in, Distinct, IsFanned, IsKept, kept-IsFanned,
}

-- A full channel misses the message.
abbrev pub delivered : Message → Channel → Channel
delivered msg ch =
    if ltb (length ch.buffer) subscription_buf
    then record ch { buffer = ch.buffer ++ (msg ∷ []) }
    else ch

IsKept-refl : (r : Registry) → IsKept r r
IsKept-refl r = record {
  safe = refl;
  routes = λ kind. refl;
  handles = refl;
  next = refl;
  opens = λ id. refl;
  calls = λ kind key. refl;
}

IsKept-trans : {r s t : Registry} → IsKept r s → IsKept s t → IsKept r t
IsKept-trans a b = record {
  safe = b.safe ∙ a.safe;
  routes = λ kind. b.routes kind ∙ a.routes kind;
  handles = b.handles ∙ a.handles;
  next = b.next ∙ a.next;
  opens = λ id. b.opens id ∙ a.opens id;
  calls = λ kind key. b.calls kind key ∙ a.calls kind key;
}

-- A write of a channel that is as open as the one that was there.
refill-IsKept :
    (id : ℕ) (ch new : Channel) (r : Registry)
    → lookup id r.channels ≡ some ch
    → new.is_closed ≡ ch.is_closed
    → IsKept r (record r { channels = insert id new r.channels })
refill-IsKept id ch new r found same = record {
  safe = refl;
  routes = λ kind. refl;
  handles = refl;
  next = refl;
  opens = λ j. ground (arith, lookup-insert id j new r.channels, nat_beq_iff id j);
  calls = λ kind key. refl;
}

emit-channels :
    (kind : Kind) (route : Route) (msg : Message) (r : Registry)
    → (emit_channel_full kind route msg r).channels ≡ r.channels
unfolding emit_channel_full
emit-channels kind route msg r = ground arith

emit-history :
    (kind : Kind) (route : Route) (msg : Message) (r : Registry)
    → (emit_channel_full kind route msg r).history ≡ r.history
unfolding emit_channel_full
emit-history kind route msg r = ground arith

emit-IsKept :
    (kind : Kind) (route : Route) (msg : Message) (r : Registry)
    → IsKept r (emit_channel_full kind route msg r)
unfolding emit_channel_full
emit-IsKept kind route msg r = record {
  safe = ground arith;
  routes = λ k. ground arith;
  handles = ground arith;
  next = ground arith;
  opens = λ id. ap (λ channels. is_open channels id) (emit-channels kind route msg r);
  calls = λ k key. ap (λ h. remote h k key) (emit-history kind route msg r);
}

shut : false ≡ true → ⊥
shut e = cc

offer-IsKept :
    (kind : Kind) (route : Route) (msg : Message) (id : ℕ) (r : Registry)
    → is_open r.channels id ≡ true
    → IsKept r (offer kind route msg id r)
unfolding offer
offer-IsKept kind route msg id r opened = elim (Option-cases (lookup id r.channels)) [
  | inl gone ↦ absurd (shut (rw gone at opened))
  | inr (ch, found) ↦
      let live : ch.is_closed ≡ false = ground arith in
      elim (Bool-cases (ltb (length ch.buffer) subscription_buf)) [
        | inl room ↦
            rw (offer, found, live, room)
              (refill-IsKept id ch (record { buffer = ch.buffer ++ (msg ∷ []); is_closed = false })
                r found (sym live))
        | inr full ↦ rw (offer, found, live, full) (emit-IsKept kind route msg r)
      ]
]

refilled :
    (ch : Channel)
    → ch.is_closed ≡ false
    → some ch ≡ some (record { buffer = ch.buffer; is_closed = false })
refilled ch live = ground arith

offer_self :
    (kind : Kind) (route : Route) (msg : Message) (id : ℕ) (ch : Channel) (r : Registry)
    → lookup id r.channels ≡ some ch
    → ch.is_closed ≡ false
    → lookup id (offer kind route msg id r).channels ≡ some (delivered msg ch)
unfolding offer
offer_self kind route msg id ch r found live =
    elim (Bool-cases (ltb (length ch.buffer) subscription_buf)) [
      | inl room ↦
          rw (offer, found, live, room)
            (lookup-insert_self id (record { buffer = ch.buffer ++ (msg ∷ []); is_closed = false })
              r.channels)
      | inr full ↦
          rw (offer, found, live, full)
            (ap (lookup id) (emit-channels kind route msg r) ∙ found ∙ refilled ch live)
    ]

offer_other :
    (kind : Kind) (route : Route) (msg : Message) (id j : ℕ) (r : Registry)
    → nat_beq id j ≡ false
    → lookup j (offer kind route msg id r).channels ≡ lookup j r.channels
unfolding offer
offer_other kind route msg id j r apart = elim (Option-cases (lookup id r.channels)) [
  | inl gone ↦ ground arith
  | inr (ch, found) ↦ ground (
    arith,
    emit-channels kind route msg r,
    lookup-insert id j (record ch { buffer = ch.buffer ++ (msg ∷ []) }) r.channels,
  )
]

module _ (kind : Kind) (route : Route) (msg : Message) where
  offer_all-IsKept :
      (ids : List ℕ) (r : Registry)
      → ((id : ℕ) → has_id id ids ≡ true → is_open r.channels id ≡ true)
      → IsKept r (offer_all kind route msg ids r)
  unfolding offer_all
  offer_all-IsKept [] r live = IsKept-refl r
  offer_all-IsKept (id ∷ ids) r live =
      let kept = offer-IsKept kind route msg id r (live id (ground (arith, nat_beq_iff id id))) in
      IsKept-trans kept (
        offer_all-IsKept ids (offer kind route msg id r)
          (λ j m. kept.opens j ∙ live j (ground arith)))

  offer_all_other :
      (ids : List ℕ) (j : ℕ) (r : Registry)
      → has_id j ids ≡ false
      → lookup j (offer_all kind route msg ids r).channels ≡ lookup j r.channels
  unfolding offer_all
  offer_all_other [] j r out = refl
  offer_all_other (id ∷ ids) j r out =
      offer_all_other ids j (offer kind route msg id r) (ground arith)
      ∙ offer_other kind route msg id j r (ground arith)

  offer_all_member :
      (ids : List ℕ) (j : ℕ) (ch : Channel) (r : Registry)
      → Distinct ids
      → has_id j ids ≡ true
      → lookup j r.channels ≡ some ch
      → ch.is_closed ≡ false
      → lookup j (offer_all kind route msg ids r).channels ≡ some (delivered msg ch)
  unfolding offer_all
  offer_all_member [] j ch r d m found live = cc
  offer_all_member (id ∷ ids) j ch r (fresh, d) m found live = elim (Bool-cases (nat_beq id j)) [
    | inl same ↦
        let e = (nat_beq_iff id j).0 same in
        offer_all_other ids j (offer kind route msg id r)
          (subst (λ i. has_id i ids ≡ false) e fresh)
        ∙ subst (λ i. lookup j (offer kind route msg i r).channels ≡ some (delivered msg ch))
            (sym e) (offer_self kind route msg j ch r found live)
    | inr apart ↦
        offer_all_member ids j ch (offer kind route msg id r) d (ground arith)
          (offer_other kind route msg id j r apart ∙ found) live
  ]

live_of_open :
    (o : Option Channel) (ch : Channel) → o ≡ some ch → is_open_in o ≡ true → ch.is_closed ≡ false
live_of_open none ch e h = cc
live_of_open (some c) ch e h = ground arith

abbrev pub is_subscriber : ℕ → Option Route → Bool
is_subscriber id none = false
is_subscriber id (some route) = has_id id route.subscribers

-- A message is published where the client keeps what it should. Each subscriber of the message's route gets it
-- once, behind what its channel holds, unless that is full; no other channel changes, and the answer tells
-- whether there is such a route.
pub publish_delivers :
    (kind : Kind) (msg : Message) (r : Registry) (id : ℕ) (ch : Channel)
    → IsFanned r
    → lookup id r.channels ≡ some ch
    → let there = lookup (route_key msg.tr_code msg.tr_key) (r.routes kind) in
      ((publish kind msg r).1 ≡ is_some there)
      × (lookup id (publish kind msg r).0.channels
          ≡ some (if is_subscriber id there then delivered msg ch else ch))
unfolding publish
publish_delivers kind msg r id ch f filled =
    elim (Option-cases (lookup (route_key msg.tr_code msg.tr_key) (r.routes kind))) [
      | inl nowhere ↦ rw (publish, nowhere) (refl, filled)
      | inr (route, found) ↦
          let old = f.routed kind (route_key msg.tr_code msg.tr_key) route found in
          elim (Bool-cases (has_id id route.subscribers)) [
            | inl member ↦
                rw (publish, found, member)
                  (
                    refl,
                    offer_all_member kind route msg route.subscribers id ch r old.distinct member
                        filled
                        (live_of_open (lookup id r.channels) ch filled (old.live id member).1),
                  )
            | inr out ↦
                rw (publish, found, out)
                  (refl, offer_all_other kind route msg route.subscribers id r out ∙ filled)
          ]
    ]

pub publish-IsFanned :
    (kind : Kind) (msg : Message) (r : Registry) → IsFanned r → IsFanned (publish kind msg r).0
unfolding publish
publish-IsFanned kind msg r f =
    elim (Option-cases (lookup (route_key msg.tr_code msg.tr_key) (r.routes kind))) [
      | inl nowhere ↦ rw (publish, nowhere) f
      | inr (route, found) ↦
          let old = f.routed kind (route_key msg.tr_code msg.tr_key) route found in
          rw (publish, found)
            (kept-IsFanned r (offer_all kind route msg route.subscribers r)
              (offer_all-IsKept kind route msg route.subscribers r (λ id m. (old.live id m).1)) f)
    ]

taken-IsKept :
    (id : ℕ) (ch : Channel) (r : Registry) (held : List Message)
    → lookup id r.channels ≡ some ch
    → IsKept r (taken id ch r held).0
taken-IsKept id ch r [] found = IsKept-refl r
taken-IsKept id ch r (msg ∷ rest) found =
    refill-IsKept id ch (record ch { buffer = rest }) r found refl

pub receive-IsFanned : (id : ℕ) (r : Registry) → IsFanned r → IsFanned (receive id r).0
unfolding receive
receive-IsFanned id r f = elim (Option-cases (lookup id r.channels)) [
  | inl gone ↦ rw (receive, gone) f
  | inr (ch, found) ↦
      rw (receive, found)
        (kept-IsFanned r (taken id ch r ch.buffer).0 (taken-IsKept id ch r ch.buffer found) f)
]
