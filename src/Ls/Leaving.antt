-- ===== src/Ls/Leaving.antt =====
-- internal/adapter/broker/ls/client: the release of a subscriber and the close of a route keep what the client
-- keeps.
use custom_hts_legacy.Prelude.{
  ℕ, ◌+◌, ◌<◌, ◌≡◌, refl, sym, ◌∙◌, ap, subst, true, false, none, some, [], ◌∷◌, arith, nat_beq,
  nat_beq_iff, nat_eq, length, is_some,
}
use custom_hts_legacy.Prelude.Texts.{Text, text_eq}
use custom_hts_legacy.Prelude.Maps.{
  lookup, delete, lookup-delete, lookup-insert_self, lookup-delete_self,
}
use custom_hts_legacy.Ls.Routes
use custom_hts_legacy.Ls.Fanout.{
  Kind, kind_beq_iff, kind_eq, tr_code_of, Route, Call, unsubscribed, History, Registry, route_key,
  has_id, remove_id, close_channels, released, without, closed_route,
}
use custom_hts_legacy.Ls.Serving.{remote, Distinct, IsRoute, IsFanned, kept-IsFanned}
use custom_hts_legacy.Ls.Ids.{has_id-remove, Distinct-remove, length-remove, without_others}
use custom_hts_legacy.Ls.Changes.{at, leave-IsFanned}

none-some : {route : Route} → none ≡ some route → ⊥
none-some e = cc

some_inj : {a b : Route} → some a ≡ some b → a ≡ b
some_inj e = cc

-- A call that the service refuses.
pub refused-IsFanned :
    (call : Call) (e : Routes.Err) (r : Registry)
    → IsFanned r
    → IsFanned (record r { history = (call, some e) ∷ r.history })
refused-IsFanned call e r f =
    kept-IsFanned r (record r { history = (call, some e) ∷ r.history })
      (record {
        safe = refl;
        routes = λ kind. refl;
        handles = refl;
        next = refl;
        opens = λ id. refl;
        calls = λ kind key. refl;
      })
      f

module _ (kind : Kind) (tr_key : Text) (route : Route) (r : Registry) (f : IsFanned r) where
  abbrev key : Text
  key = route_key (tr_code_of kind) tr_key

  abbrev dropped : History
  dropped = (unsubscribed kind tr_key, none) ∷ r.history

  dropped_here : remote dropped kind key ≡ false
  dropped_here = ground (arith, kind_beq_iff kind kind, text_eq.beq_iff key key)

  dropped_others :
      (k : Kind) (y : Text) → at kind key k y ≡ false → remote dropped k y ≡ remote r.history k y
  dropped_others k y apart = ground (
    arith,
    kind_beq_iff kind k,
    kind_beq_iff k kind,
    text_eq.beq_iff key y,
    text_eq.beq_iff y key,
  )

  module _ (found : lookup key (r.routes kind) ≡ some route) (id : ℕ)
      (member : has_id id route.subscribers ≡ true) where
    old : IsRoute r kind key route
    old = f.routed kind key route found

    rest_length : length (remove_id id route.subscribers) + 1 ≡ length route.subscribers
    rest_length = length-remove id route.subscribers member old.distinct

    members : (j : ℕ) → has_id j (id ∷ []) ≡ true → has_id j route.subscribers ≡ true
    members j m = ground (arith, nat_beq_iff id j)

    table_none :
        length route.subscribers ≡ 1 → lookup key (without key route id (r.routes kind)) ≡ none
    table_none one =
        let empty : nat_beq (length (remove_id id route.subscribers)) 0 ≡ true =
          (nat_beq_iff (length (remove_id id route.subscribers)) 0).1
            (omega (arith, rest_length)) in
        rw empty (lookup-delete_self key (r.routes kind))

    table_left :
        1 < length route.subscribers
        → lookup key (without key route id (r.routes kind))
          ≡ some (record route { subscribers = remove_id id route.subscribers })
    table_left more =
        let some_there : nat_beq (length (remove_id id route.subscribers)) 0 ≡ false =
          ground (arith, rest_length) in
        rw some_there (
          lookup-insert_self key (record route { subscribers = remove_id id route.subscribers })
            (r.routes kind))

    rest_members :
        (j : ℕ)
        → has_id j (remove_id id route.subscribers) ≡ true
        → (has_id j route.subscribers ≡ true) × (has_id j (id ∷ []) ≡ false)
    rest_members j m =
        ground (arith, has_id-remove id j route.subscribers, nat_beq_iff j id, nat_beq_iff id j)

    pub last_released-IsFanned :
        length route.subscribers ≡ 1
        → IsFanned (released kind key route id (record r { history = dropped }, none)).0
    unfolding close_channels
    last_released-IsFanned one =
        leave-IsFanned kind key route r f found (id ∷ []) (without key route id (r.routes kind))
          dropped members (refl, tt)
          (λ y apart. without_others key y route id (r.routes kind) apart) dropped_others
          (dropped_here ∙ ap is_some (sym (table_none one)))
          (λ left there. absurd (none-some (sym (table_none one) ∙ there)))

    pub released-IsFanned :
        1 < length route.subscribers → IsFanned (released kind key route id (r, none)).0
    unfolding close_channels
    released-IsFanned more =
        leave-IsFanned kind key route r f found (id ∷ []) (without key route id (r.routes kind))
          r.history members (refl, tt)
          (λ y apart. without_others key y route id (r.routes kind) apart) (λ k y apart. refl)
          (f.served kind key ∙ ap is_some found ∙ ap is_some (sym (table_left more)))
          (λ left there.
            subst
              (λ (left : Route).
                (0 < length left.subscribers)
                × Distinct left.subscribers
                × ((j : ℕ)
                    → has_id j left.subscribers ≡ true
                    → (has_id j route.subscribers ≡ true) × (has_id j (id ∷ []) ≡ false)))
              (some_inj (sym (table_left more) ∙ there))
              (
                omega (arith, rest_length),
                Distinct-remove id route.subscribers old.distinct,
                rest_members,
              ))

  pub closed-IsFanned :
      lookup key (r.routes kind) ≡ some route
      → IsFanned (closed_route kind key route (record r { history = dropped }, none)).0
  closed-IsFanned found =
      leave-IsFanned kind key route r f found route.subscribers (delete key (r.routes kind)) dropped
        (λ j m. m) (f.routed kind key route found).distinct
        (λ y apart. ground (
          arith,
          lookup-delete key y (r.routes kind),
          text_eq.beq_iff key y,
          text_eq.beq_iff y key,
        ))
        dropped_others (dropped_here ∙ ap is_some (sym (lookup-delete_self key (r.routes kind))))
        (λ left there. absurd (none-some (sym (lookup-delete_self key (r.routes kind)) ∙ there)))
