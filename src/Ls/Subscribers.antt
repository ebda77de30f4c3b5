-- ===== src/Ls/Subscribers.antt =====
-- Runs of internal/adapter/broker/ls/client.
use custom_hts_legacy.Prelude.{
  ℕ, ◌+◌, ◌^◌, ◌≤◌, ◌<◌, ◌≡◌, refl, sym, ◌∙◌, ap, subst, true, Option, none, some, List, [], ◌∷◌,
  arith, nat_beq, nat_beq_iff, nat_eq, ◌⊎◌, inl, inr, length, Bool-cases, Option-cases,
}
use custom_hts_legacy.Prelude.Texts.{Text, text_eq}
use custom_hts_legacy.Prelude.Maps.{lookup, lookup-insert}
use custom_hts_legacy.Ls.Routes
use custom_hts_legacy.Ls.Fanout.{
  Kind, tr_code_of, Route, Handle, Registry, Err, subscription_not_found, other, Service, route_key,
  has_id, release, released, close_route, closed_route, new_registry, unsubscribed, ask,
}
use custom_hts_legacy.Ls.Handles.{
  normalize, subscribe_key, subscribe, unsubscribe_key, unsubscribe, mark_closed, detached, close,
  Op, subscribes, unsubscribes, closes, receives, publishes, step, run,
}
use custom_hts_legacy.Ls.Counting.{release_parts, step_next}
use custom_hts_legacy.Ls.Serving.{home_of, IsRoute, IsFanned}
use custom_hts_legacy.Ls.Leaving.{
  refused-IsFanned, last_released-IsFanned, released-IsFanned, closed-IsFanned,
}
use custom_hts_legacy.Ls.Joining.{acquire-IsFanned}
use custom_hts_legacy.Ls.Delivering.{publish-IsFanned, receive-IsFanned}

module _ (service : Service) (kind : Kind) (tr_key : Text) (r : Registry) (f : IsFanned r) where
  abbrev own_key : Text
  own_key = route_key (tr_code_of kind) tr_key

  abbrev asked : Option Routes.Err → Registry × Option Routes.Err
  asked reply = (record r { history = (unsubscribed kind tr_key, reply) ∷ r.history }, reply)

  closed_cases :
      (route : Route) (reply : Option Routes.Err)
      → lookup own_key (r.routes kind) ≡ some route
      → IsFanned (closed_route kind own_key route (asked reply)).0
  closed_cases route none found = closed-IsFanned kind tr_key route r f found
  closed_cases route (some e) found = refused-IsFanned (unsubscribed kind tr_key) e r f

  close_route-IsFanned : IsFanned (close_route service kind (tr_code_of kind) tr_key r).0
  unfolding close_route ask
  close_route-IsFanned = elim (Option-cases (lookup own_key (r.routes kind))) [
    | inl nowhere ↦ rw (close_route, nowhere) f
    | inr (route, found) ↦
        rw (close_route, found)
          (closed_cases route (service r.history (unsubscribed kind tr_key)) found)
  ]

  last_cases :
      (id : ℕ) (route : Route) (reply : Option Routes.Err)
      → lookup own_key (r.routes kind) ≡ some route
      → has_id id route.subscribers ≡ true
      → length route.subscribers ≡ 1
      → IsFanned (released kind own_key route id (asked reply)).0
  last_cases id route none found member one =
      last_released-IsFanned kind tr_key route r f found id member one
  last_cases id route (some e) found member one = refused-IsFanned (unsubscribed kind tr_key) e r f

  release-IsFanned : (id : ℕ) → IsFanned (release service kind (tr_code_of kind) tr_key id r).0
  unfolding release ask
  release-IsFanned id = elim (Option-cases (lookup own_key (r.routes kind))) [
    | inl nowhere ↦ rw (release, nowhere) f
    | inr (route, found) ↦ elim (Bool-cases (has_id id route.subscribers)) [
      | inr out ↦ rw (release, found, out) f
      | inl member ↦ elim (Bool-cases (nat_beq (length route.subscribers) 1)) [
        | inl last ↦
            rw (release, found, member, last)
              (last_cases id route (service r.history (unsubscribed kind tr_key)) found member
                ((nat_beq_iff (length route.subscribers) 1).0 last))
        | inr more ↦
            rw (release, found, member, more)
              (released-IsFanned kind tr_key route r f found id member (
                ground (
                  arith,
                  (f.routed kind own_key route found).some_there,
                  nat_beq_iff (length route.subscribers) 1,
                )))
      ]
    ]
  ]

handle_inj : {a b : Handle} → some a ≡ some b → a ≡ b
handle_inj e = cc

-- A handle that is marked names the route that it named.
module _ (id : ℕ) (h : Handle) (r : Registry) (found : lookup id r.handles ≡ some h) where
  abbrev shut_handle : Handle
  shut_handle = record h { is_closed = true }

  marked_home :
      (j : ℕ) → home_of (lookup j (mark_closed id h r).handles) ≡ home_of (lookup j r.handles)
  marked_home j = elim (Bool-cases (nat_beq id j)) [
    | inl same ↦
        let e = (nat_beq_iff id j).0 same in
        let look : lookup j (mark_closed id h r).handles ≡ some shut_handle =
          lookup-insert id j shut_handle r.handles ∙ rw same refl in
        ap home_of look ∙ ap home_of (sym found) ∙ ap (λ j. home_of (lookup j r.handles)) e
    | inr apart ↦ ap home_of (lookup-insert id j shut_handle r.handles ∙ rw apart refl)
  ]

  marked-IsRoute :
      (kind : Kind) (key : Text) (route : Route)
      → IsRoute r kind key route
      → IsRoute (mark_closed id h r) kind key route
  marked-IsRoute kind key route old = record {
    live = λ j m. let (home, opened, known) = old.live j m in (marked_home j ∙ home, opened, known);
    some_there = old.some_there;
    distinct = old.distinct;
  }

  marked_coded :
      IsFanned r
      → (j : ℕ) (g : Handle) → lookup j (mark_closed id h r).handles ≡ some g
      → (g.tr_code ≡ tr_code_of g.kind) × (j ≤ r.next_subscriber_id)
  marked_coded f j g there = elim (Bool-cases (nat_beq id j)) [
    | inl same ↦
        let (code, known) = f.coded id h found in
        let seen : some shut_handle ≡ some g =
          sym (lookup-insert id j shut_handle r.handles ∙ rw same refl) ∙ there in
        (
          subst (λ (g : Handle). g.tr_code ≡ tr_code_of g.kind) (handle_inj seen) code,
          subst (λ j. j ≤ r.next_subscriber_id) ((nat_beq_iff id j).0 same) known,
        )
    | inr apart ↦
        f.coded j g (sym (lookup-insert id j shut_handle r.handles ∙ rw apart refl) ∙ there)
  ]

  mark_closed-IsFanned : IsFanned r → IsFanned (mark_closed id h r)
  mark_closed-IsFanned f = record {
    safe = f.safe;
    served = f.served;
    coded = marked_coded f;
    routed = λ kind key route there. marked-IsRoute kind key route (f.routed kind key route there);
  }

detach_cases :
    (id : ℕ) (h : Handle) (o : Registry × Option Err)
    → lookup id o.0.handles ≡ some h
    → IsFanned o.0
    → IsFanned (detached id h o).0
detach_cases id h (r, none) found f = mark_closed-IsFanned id h r found f
detach_cases id h (r, some (subscription_not_found kind tr_code tr_key)) found f =
    mark_closed-IsFanned id h r found f
detach_cases id h (r, some (other e)) found f = f

close-IsFanned :
    (service : Service) (id : ℕ) (r : Registry) → IsFanned r → IsFanned (close service id r).0
unfolding close
close-IsFanned service id r f = elim (Option-cases (lookup id r.handles)) [
  | inl gone ↦ rw (close, gone) f
  | inr (h, found) ↦ elim (Bool-cases h.is_closed) [
    | inl shut ↦ rw (close, found) (simp (shut) f)
    | inr live ↦
        let coded : h.tr_code ≡ tr_code_of h.kind = (f.coded id h found).0 in
        rw (close, found)
          (simp (live) (
            detach_cases id h (release service h.kind h.tr_code h.tr_key id r)
              (ap (lookup id) (release_parts service h.kind h.tr_code h.tr_key id r).0 ∙ found)
              (subst (λ c. IsFanned (release service h.kind c h.tr_key id r).0) (sym coded)
                (release-IsFanned service h.kind h.tr_key r f id))))
  ]
]

subscribe-IsFanned :
    (service : Service) (kind : Kind) (key : Routes.Err ⊎ Text) (r : Registry)
    → r.next_subscriber_id + 1 < 2 ^ 64
    → IsFanned r
    → IsFanned (subscribe_key service kind key r).0
subscribe-IsFanned service kind (inl e) r room f = f
subscribe-IsFanned service kind (inr tr_key) r room f =
    acquire-IsFanned kind tr_key r f room service

unsubscribe-IsFanned :
    (service : Service) (kind : Kind) (key : Routes.Err ⊎ Text) (r : Registry)
    → IsFanned r
    → IsFanned (unsubscribe_key service kind key r).0
unsubscribe-IsFanned service kind (inl e) r f = f
unsubscribe-IsFanned service kind (inr tr_key) r f = close_route-IsFanned service kind tr_key r f

step-IsFanned :
    (service : Service) (op : Op) (r : Registry)
    → r.next_subscriber_id + 1 < 2 ^ 64
    → IsFanned r
    → IsFanned (step service op r)
unfolding step subscribe unsubscribe
step-IsFanned service (subscribes kind text) r room f =
    subscribe-IsFanned service kind (normalize kind text) r room f
step-IsFanned service (unsubscribes kind text) r room f =
    unsubscribe-IsFanned service kind (normalize kind text) r f
step-IsFanned service (closes id) r room f = close-IsFanned service id r f
step-IsFanned service (receives id) r room f = receive-IsFanned id r f
step-IsFanned service (publishes kind msg) r room f = publish-IsFanned kind msg r f

run-IsFanned :
    (service : Service) (ops : List Op) (r : Registry)
    → r.next_subscriber_id + length ops < 2 ^ 64
    → IsFanned r
    → IsFanned (run service ops r)
unfolding run
run-IsFanned service [] r room f = f
run-IsFanned service (op ∷ ops) r room f =
    run-IsFanned service ops (step service op r) (omega (arith, step_next service op r))
      (step-IsFanned service op r (omega arith) f)

new-IsFanned : IsFanned new_registry
unfolding new_registry lookup
new-IsFanned = record {
  safe = refl;
  served = λ kind key. refl;
  coded = λ id h there. cc;
  routed = λ kind key route there. cc;
}

-- A new client does any fewer than 2 ^ 64 operations of its callers and of its dispatch loops, in any order, and
-- the service answers as it will. The client never panics. The service's last word on a route is an accepted
-- subscription just while the route has local subscribers; each of these has an open channel, its handle names
-- this route and no other, and a route's subscribers are distinct.
pub clients-IsFanned :
    (service : Service) (ops : List Op)
    → length ops < 2 ^ 64
    → IsFanned (run service ops new_registry)
unfolding new_registry
clients-IsFanned service ops few = run-IsFanned service ops new_registry (omega arith) new-IsFanned
