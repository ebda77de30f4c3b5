-- ===== src/Ls/Counting.antt =====
-- internal/adapter/broker/ls/client: what a step does to the counter of subscribers, and to the handles.
use custom_hts_legacy.Prelude.{
  ℕ, ◌+◌, ◌%◌, ◌^◌, ◌≤◌, ◌≡◌, refl, ◌∙◌, Bool, true, false, Option, none, some, List, [], ◌∷◌,
  arith, nat_beq, nat_eq, ◌⊎◌, inl, inr, length, Bool-cases, Option-cases,
}
use custom_hts_legacy.Prelude.Texts.{Text, text_eq}
use custom_hts_legacy.Prelude.Maps.{lookup, insert, delete}
use custom_hts_legacy.Ls.Routes
use custom_hts_legacy.Ls.Fanout.{
  Kind, tr_code_of, Channel, Route, Handle, Message, Registry, Err, subscription_not_found, other,
  Service, route_key, has_id, with_routes, without, release, released, close_route, closed_route,
  acquired, found_route, add_id, attach_as, attach, acquire, publish, subscribed, unsubscribed, ask,
  emit_channel_full, offer, offer_all,
}
use custom_hts_legacy.Ls.Handles.{
  normalize, with_handle, subscribe_key, subscribe, unsubscribe_key, unsubscribe, detached, close,
  receive, taken, Op, subscribes, unsubscribes, closes, receives, publishes, step,
}
use custom_hts_legacy.Ls.Serving.{close_channel-SameBut, close_channels-SameBut}

module _ (kind : Kind) (key : Text) (route : Route) where
  released_parts :
      (id : ℕ) (o : Registry × Option Routes.Err)
      → ((released kind key route id o).0.handles ≡ o.0.handles)
        × ((released kind key route id o).0.next_subscriber_id ≡ o.0.next_subscriber_id)
  released_parts id (r, some e) = (refl, refl)
  released_parts id (r, none) =
      let same =
        close_channel-SameBut id (with_routes kind (without key route id (r.routes kind)) r) in
      (same.handles, same.next)

  closed_next :
      (o : Registry × Option Routes.Err)
      → (closed_route kind key route o).0.next_subscriber_id ≡ o.0.next_subscriber_id
  closed_next (r, some e) = refl
  closed_next (r, none) =
      (close_channels-SameBut route.subscribers
        (with_routes kind (delete key (r.routes kind)) r)).next

pub release_parts :
    (service : Service) (kind : Kind) (tr_code tr_key : Text) (id : ℕ) (r : Registry)
    → ((release service kind tr_code tr_key id r).0.handles ≡ r.handles)
      × ((release service kind tr_code tr_key id r).0.next_subscriber_id ≡ r.next_subscriber_id)
unfolding release ask
release_parts service kind tr_code tr_key id r =
    let key = route_key tr_code tr_key in
    elim (Option-cases (lookup key (r.routes kind))) [
      | inl nowhere ↦ rw (release, nowhere) (refl, refl)
      | inr (route, found) ↦ elim (Bool-cases (has_id id route.subscribers)) [
        | inr out ↦ rw (release, found, out) (refl, refl)
        | inl member ↦ elim (Bool-cases (nat_beq (length route.subscribers) 1)) [
          | inl last ↦
              rw (release, found, member, last)
                (released_parts kind key route id (ask service (unsubscribed kind tr_key) r))
          | inr more ↦
              rw (release, found, member, more) (released_parts kind key route id (r, none))
        ]
      ]
    ]

close_route_next :
    (service : Service) (kind : Kind) (tr_code tr_key : Text) (r : Registry)
    → (close_route service kind tr_code tr_key r).0.next_subscriber_id ≡ r.next_subscriber_id
unfolding close_route ask
close_route_next service kind tr_code tr_key r =
    let key = route_key tr_code tr_key in
    elim (Option-cases (lookup key (r.routes kind))) [
      | inl nowhere ↦ rw (close_route, nowhere) refl
      | inr (route, found) ↦
          rw (close_route, found)
            (closed_next kind key route (ask service (unsubscribed kind tr_key) r))
    ]

acquired_next :
    (kind : Kind) (key : Text) (id : ℕ) (o : Registry × Option Routes.Err)
    → (acquired kind key id o).0.next_subscriber_id ≡ o.0.next_subscriber_id
acquired_next kind key id (r, none) = refl
acquired_next kind key id (r, some e) =
    (close_channel-SameBut id (with_routes kind (delete key (r.routes kind)) r)).next

attach_as_next :
    (service : Service) (kind : Kind) (key tr_key : Text) (id : ℕ) (first : Bool) (r : Registry)
    → (attach_as service kind key tr_key id first r).0.next_subscriber_id ≡ r.next_subscriber_id
unfolding ask
attach_as_next service kind key tr_key id true r =
    acquired_next kind key id (ask service (subscribed kind tr_key) r)
attach_as_next service kind key tr_key id false r = refl

acquire_next :
    (service : Service) (kind : Kind) (tr_code tr_key : Text) (r : Registry)
    → (acquire service kind tr_code tr_key r).0.next_subscriber_id
      ≡ (r.next_subscriber_id + 1) % 2 ^ 64
unfolding acquire attach
acquire_next service kind tr_code tr_key r =
    let key = route_key tr_code tr_key in
    let route = found_route tr_code tr_key (lookup key (r.routes kind)) in
    let id = (r.next_subscriber_id + 1) % 2 ^ 64 in
    let ids = add_id id route.subscribers in
    attach_as_next service kind key tr_key id (nat_beq (length ids) 1)
      (record (with_routes kind (insert key (record route { subscribers = ids }) (r.routes kind))
        r) {
          next_subscriber_id = id;
          channels = insert id (record { buffer = []; is_closed = false }) r.channels;
        })

with_handle_next :
    (kind : Kind) (tr_key : Text) (o : Registry × (Err ⊎ ℕ))
    → (with_handle kind tr_key o).0.next_subscriber_id ≡ o.0.next_subscriber_id
with_handle_next kind tr_key (r, inl e) = refl
with_handle_next kind tr_key (r, inr id) = refl

subscribe_next :
    (service : Service) (kind : Kind) (key : Routes.Err ⊎ Text) (r : Registry)
    → (subscribe_key service kind key r).0.next_subscriber_id ≤ r.next_subscriber_id + 1
unfolding acquire
subscribe_next service kind (inl e) r = omega arith
subscribe_next service kind (inr tr_key) r = omega (
  arith,
  with_handle_next kind tr_key (acquire service kind (tr_code_of kind) tr_key r),
  acquire_next service kind (tr_code_of kind) tr_key r,
)

unsubscribe_next :
    (service : Service) (kind : Kind) (key : Routes.Err ⊎ Text) (r : Registry)
    → (unsubscribe_key service kind key r).0.next_subscriber_id ≡ r.next_subscriber_id
unsubscribe_next service kind (inl e) r = refl
unsubscribe_next service kind (inr tr_key) r =
    close_route_next service kind (tr_code_of kind) tr_key r

detached_next :
    (id : ℕ) (h : Handle) (o : Registry × Option Err)
    → (detached id h o).0.next_subscriber_id ≡ o.0.next_subscriber_id
detached_next id h (r, none) = refl
detached_next id h (r, some (subscription_not_found kind tr_code tr_key)) = refl
detached_next id h (r, some (other e)) = refl

close_next :
    (service : Service) (id : ℕ) (r : Registry)
    → (close service id r).0.next_subscriber_id ≡ r.next_subscriber_id
unfolding close
close_next service id r = elim (Option-cases (lookup id r.handles)) [
  | inl gone ↦ rw (close, gone) refl
  | inr (h, found) ↦ elim (Bool-cases h.is_closed) [
    | inl shut ↦ rw (close, found) (simp (shut))
    | inr live ↦
        rw (close, found)
          (simp (live) (
            detached_next id h (release service h.kind h.tr_code h.tr_key id r)
            ∙ (release_parts service h.kind h.tr_code h.tr_key id r).1))
  ]
]

offer_next :
    (kind : Kind) (route : Route) (msg : Message) (id : ℕ) (r : Registry)
    → (offer kind route msg id r).next_subscriber_id ≡ r.next_subscriber_id
unfolding offer emit_channel_full
offer_next kind route msg id r = ground arith

offer_all_next :
    (kind : Kind) (route : Route) (msg : Message) (ids : List ℕ) (r : Registry)
    → (offer_all kind route msg ids r).next_subscriber_id ≡ r.next_subscriber_id
unfolding offer_all
offer_all_next kind route msg [] r = refl
offer_all_next kind route msg (id ∷ ids) r =
    offer_all_next kind route msg ids (offer kind route msg id r) ∙ offer_next kind route msg id r

taken_next :
    (id : ℕ) (ch : Channel) (r : Registry) (held : List Message)
    → (taken id ch r held).0.next_subscriber_id ≡ r.next_subscriber_id
taken_next id ch r [] = refl
taken_next id ch r (msg ∷ rest) = refl

receive_next : (id : ℕ) (r : Registry) → (receive id r).0.next_subscriber_id ≡ r.next_subscriber_id
unfolding receive
receive_next id r = elim (Option-cases (lookup id r.channels)) [
  | inl gone ↦ rw (receive, gone) refl
  | inr (ch, found) ↦ rw (receive, found) (taken_next id ch r ch.buffer)
]

publish_next :
    (kind : Kind) (msg : Message) (r : Registry)
    → (publish kind msg r).0.next_subscriber_id ≡ r.next_subscriber_id
unfolding publish
publish_next kind msg r =
    let key = route_key msg.tr_code msg.tr_key in
    elim (Option-cases (lookup key (r.routes kind))) [
      | inl nowhere ↦ rw (publish, nowhere) refl
      | inr (route, found) ↦ rw (publish, found) (offer_all_next kind route msg route.subscribers r)
    ]

-- A step takes at most one identifier.
pub step_next :
    (service : Service) (op : Op) (r : Registry)
    → (step service op r).next_subscriber_id ≤ r.next_subscriber_id + 1
unfolding step subscribe unsubscribe
step_next service (subscribes kind text) r = subscribe_next service kind (normalize kind text) r
step_next service (unsubscribes kind text) r =
    omega (arith, unsubscribe_next service kind (normalize kind text) r)
step_next service (closes id) r = omega (arith, close_next service id r)
step_next service (receives id) r = omega (arith, receive_next id r)
step_next service (publishes kind msg) r = omega (arith, publish_next kind msg r)
