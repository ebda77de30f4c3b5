-- ===== src/Ls/Races.antt =====
-- The subscriptions of internal/adapter/broker/ls/api/ws/transport.go, undisturbed and in a race.
use custom_hts_legacy.Prelude.{
  ℕ, ◌≡◌, refl, sym, ◌∙◌, ap, subst, Bool, true, false, Option, none, some, List, [], ◌∷◌, arith,
  nat_eq, ◌⊎◌, inl, inr, Bool-cases, is_some, ==-self,
}
use custom_hts_legacy.Prelude.Texts.{Text, text_eq}
use custom_hts_legacy.Prelude.Maps.{lookup, delete, lookup-delete_self}
use custom_hts_legacy.Ls.Routes.{CommandErr, Err}
use custom_hts_legacy.Ls.Conns.{
  Dependencies, normalize_dependencies, Limits, Registry, Factory, acquire, mark_idle, drop_route,
  owns, release, owner,
}
use custom_hts_legacy.Ls.Realtime.{
  Answer, refused, pending, observe, settle, settled, rolled_back, subscribe, released, leave,
  unsubscribe,
}
use custom_hts_legacy.Ls.Placing.{IsPlaced}
use custom_hts_legacy.Ls.Managing.{release-IsPlaced}
use custom_hts_legacy.Ls.Acquiring.{IsAnswer, acquire_outcome}

mark_idle_keeps :
    (lim : Limits) (id : ℕ) (r : Registry)
    → ((mark_idle lim id r).route_owners ≡ r.route_owners)
      × ((mark_idle lim id r).is_closed ≡ r.is_closed)
unfolding mark_idle
mark_idle_keeps lim id r = ground arith

drop_route_keeps :
    (key : Text) (id : ℕ) (r : Registry)
    → ((drop_route key id r).route_owners ≡ r.route_owners)
      × ((drop_route key id r).is_closed ≡ r.is_closed)
drop_route_keeps key id r = ground arith

owner_released :
    (lim : Limits) (key : Text) (id : ℕ) (r : Registry)
    → lookup key r.route_owners ≡ some id
    → (lookup key (release lim key id r).route_owners ≡ none)
      × ((release lim key id r).is_closed ≡ r.is_closed)
unfolding release
owner_released lim key id r owned =
    let own : owns (lookup key r.route_owners) id ≡ true = rw owned (==-self id) in
    let cut : Registry = record r { route_owners = delete key r.route_owners } in
    let (owners, closed) = mark_idle_keeps lim id (drop_route key id cut) in
    let (owners', closed') = drop_route_keeps key id cut in
    rw (release, own)
      (ap (lookup key) (owners ∙ owners') ∙ lookup-delete_self key r.route_owners, closed ∙ closed')

some_inj : {A : Type 0} {a b : A} → some a ≡ some b → a ≡ b
some_inj e = cc

no_owner : (m : List (Text × ℕ)) (key : Text) (id : ℕ) → m ≡ [] → lookup key m ≡ some id → ⊥
unfolding lookup
no_owner [] key id e found = cc
no_owner (x ∷ m) key id e found = cc

acquired_again :
    (lim : Limits) (factory : Factory) (key : Text) (id : ℕ) (r : Registry)
    → r.is_closed ≡ false
    → lookup key r.route_owners ≡ some id
    → acquire lim factory key r ≡ some (r, inr (id, true))
unfolding acquire
acquired_again lim factory key id r running owned = simp (running, owned)

accepted_again :
    (lim : Limits) (factory : Factory) (key : Text) (id : ℕ) (r : Registry)
    → r.is_closed ≡ false
    → lookup key r.route_owners ≡ some id
    → subscribe lim factory key pending r ≡ some (r, none)
unfolding subscribe settle observe
accepted_again lim factory key id r running owned =
    ap (settled lim key pending) (acquired_again lim factory key id r running owned)

unowned_left :
    (lim : Limits) (key : Text) (answer : Answer) (r : Registry)
    → r.is_closed ≡ false
    → lookup key r.route_owners ≡ none
    → unsubscribe lim key answer r ≡ (r, none)
unfolding unsubscribe owner leave
unowned_left lim key answer r running unowned = simp (running, unowned)

-- How a subscribe ends: with an error, the route has the owner that it had; with none, it has one.
abbrev pub IsSettled : Text → Registry → Registry → Option Err → Type 0
IsSettled key r r' none = is_some (lookup key r'.route_owners) ≡ true
IsSettled key r r' (some e) = lookup key r'.route_owners ≡ lookup key r.route_owners

-- How an unsubscribe ends: with an error, nothing has changed; with none, the route has no owner.
abbrev pub IsLeft : Text → Registry → Registry → Option Err → Type 0
IsLeft key r r' none = lookup key r'.route_owners ≡ none
IsLeft key r r' (some e) = r' ≡ r

leave_found :
    (lim : Limits) (key : Text) (id : ℕ) (reply : Option Err) (r : Registry)
    → lookup key r.route_owners ≡ some id
    → IsLeft key r (released lim key id reply r).0 (released lim key id reply r).1
leave_found lim key id none r owned = (owner_released lim key id r owned).0
leave_found lim key id (some e) r owned = refl

leave_known :
    (lim : Limits) (key : Text) (found : Option ℕ) (answer : Answer) (r : Registry)
    → lookup key r.route_owners ≡ found
    → IsLeft key r (leave lim key (inr found) answer r).0 (leave lim key (inr found) answer r).1
unfolding leave
leave_known lim key none answer r unowned = unowned
leave_known lim key (some id) answer r owned = leave_found lim key id (observe answer) r owned

-- An unsubscribe that ends with no error leaves the route without a slot; one that ends with an error, since the
-- registry is closed or the command failed, changes nothing.
pub leave_outcome :
    (lim : Limits) (key : Text) (answer : Answer) (r : Registry)
    → IsLeft key r (unsubscribe lim key answer r).0 (unsubscribe lim key answer r).1
unfolding unsubscribe owner leave
leave_outcome lim key answer r = elim (Bool-cases r.is_closed) [
  | inl closed ↦ simp (closed) refl
  | inr running ↦ simp (running) (leave_known lim key (lookup key r.route_owners) answer r refl)
]

module _ (deps : Dependencies) (factory : Factory) (key : Text) (r : Registry)
    (p : IsPlaced (normalize_dependencies deps) r) where
  abbrev lim : Limits
  lim = normalize_dependencies deps

  rolled_cases :
      (r1 : Registry) (id : ℕ) (existed : Bool) (reply : Option Err)
      → IsPlaced lim r1
      → IsAnswer key r r1 (inr (id, existed))
      → let o = rolled_back lim key id existed reply r1 in
        IsPlaced lim o.0 × IsSettled key r o.0 o.1
  rolled_cases r1 id true none q (owned, same) =
      (q, ap is_some (ap (λ r. lookup key r.route_owners) same ∙ owned))
  rolled_cases r1 id false none q (unowned, owned) = (q, ap is_some owned)
  rolled_cases r1 id true (some e) q (owned, same) = (q, ap (λ r. lookup key r.route_owners) same)
  rolled_cases r1 id false (some e) q (unowned, owned) =
      (release-IsPlaced lim key id r1 q, (owner_released lim key id r1 owned).0 ∙ sym unowned)

  settle_cases :
      (answer : Answer) (r1 : Registry) (result : Err ⊎ (ℕ × Bool))
      → IsPlaced lim r1
      → IsAnswer key r r1 result
      → IsPlaced lim (settle lim key result answer r1).0
        × IsSettled key r (settle lim key result answer r1).0 (settle lim key result answer r1).1
  unfolding settle
  settle_cases answer r1 (inl e) q a = (q, a.0)
  settle_cases answer r1 (inr (id, existed)) q a = rolled_cases r1 id existed (observe answer) q a

  -- A subscribe that no other call comes between ends, and keeps what holds of the registry: with no error, the
  -- route has a slot; with an error, the route has the slot that it had before, or still none.
  pub subscribe_outcome :
      (answer : Answer)
      → (r' : Registry) × (reply : Option Err) × (subscribe lim factory key answer r
          ≡ some (r', reply))
        × IsPlaced lim r'
        × IsSettled key r r' reply
  unfolding subscribe
  subscribe_outcome answer =
      let (r1, result, eq, q, a) = acquire_outcome deps factory key r p in
      let (placed, ends) = settle_cases answer r1 result q a in
      let o = settle lim key result answer r1 in
      (o.0, o.1, ap (settled lim key answer) eq, placed, ends)

  first-IsAnswer :
      (r1 : Registry) (id : ℕ)
      → acquire lim factory key r ≡ some (r1, inr (id, false))
      → IsPlaced lim r1 × IsAnswer key r r1 (inr (id, false))
  first-IsAnswer r1 id first =
      let (r', result, eq, placed, answer) = acquire_outcome deps factory key r p in
      subst (λ o. IsPlaced lim o.0 × IsAnswer key r o.0 o.1) (some_inj (sym eq ∙ first))
        (placed, answer)

  still_running :
      (r1 : Registry) (id : ℕ)
      → IsPlaced lim r1
      → lookup key r1.route_owners ≡ some id
      → r1.is_closed ≡ false
  still_running r1 id placed owned = elim (Bool-cases r1.is_closed) [
    | inr running ↦ running
    | inl closed ↦ absurd (no_owner r1.route_owners key id (placed.shut closed).1 owned)
  ]

  -- Two goroutines subscribe a route that has no slot. The first gets a new owner for it; the second finds this
  -- owner, and its command is accepted; then the first one's is refused. The second has been told of no error,
  -- but its route has no owner, and its unsubscribe later sends nothing and changes nothing.
  pub rollback_drops_other :
      (r1 : Registry) (id : ℕ) (e : CommandErr) (later : Answer)
      → acquire lim factory key r ≡ some (r1, inr (id, false))
      → let r2 = (settle lim key (inr (id, false)) (refused e) r1).0 in
        (subscribe lim factory key pending r1 ≡ some (r1, none))
        × (lookup key r2.route_owners ≡ none)
        × (unsubscribe lim key later r2 ≡ (r2, none))
  unfolding settle observe
  rollback_drops_other r1 id e later first =
      let (placed, (unowned, owned)) = first-IsAnswer r1 id first in
      let running = still_running r1 id placed owned in
      let (gone, closed) = owner_released lim key id r1 owned in
      (
        accepted_again lim factory key id r1 running owned,
        gone,
        unowned_left lim key later (release lim key id r1) (closed ∙ running) gone,
      )
