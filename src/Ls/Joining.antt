-- ===== src/Ls/Joining.antt =====
-- internal/adapter/broker/ls/client: a subscription keeps what the client keeps, whatever the service answers.
use custom_hts_legacy.Prelude.{
  ℕ, ◌+◌, ◌%◌, ◌^◌, ◌≤◌, ◌<◌, ◌≡◌, refl, sym, ◌∙◌, ap, subst, Bool, true, false, Option, none, some,
  List, [], ◌∷◌, ◌++◌, arith, nat_beq, nat_beq_iff, nat_eq, if◌then◌else◌, inl, inr, length,
  length-append, Bool-cases, is_some,
}
use custom_hts_legacy.Prelude.Texts.{Text, text_eq}
use custom_hts_legacy.Prelude.Maps.{
  lookup, insert, delete, lookup-insert, lookup-delete, lookup-insert_self, lookup-delete_self,
}
use custom_hts_legacy.Ls.Routes
use custom_hts_legacy.Ls.Fanout.{
  Kind, kind_beq_iff, kind_eq, tr_code_of, Channel, Route, Handle, subscribed, History, Registry,
  Service, route_key, has_id, add_id, close_channel, with_routes, acquire, attach, attach_as,
  acquired, found_route, ask,
}
use custom_hts_legacy.Ls.Handles.{with_handle}
use custom_hts_legacy.Ls.Serving.{
  remote, home_of, is_open, is_open_in, Distinct, IsLive, IsRoute, IsFanned, close_channel-SameBut,
  close_channel-safe, close_channel-open,
}
use custom_hts_legacy.Ls.Ids.{has_id-append, Distinct-append}
use custom_hts_legacy.Ls.Changes.{
  at, IsChange, change-IsFanned, with_routes_own, with_routes_others,
}

handle_inj : {a b : Handle} → some a ≡ some b → a ≡ b
handle_inj e = cc

route_inj : {a b : Route} → some a ≡ some b → a ≡ b
route_inj e = cc

gone_some : {a : Route} → none ≡ some a → ⊥
gone_some e = cc

abbrev fresh_channel : Channel
fresh_channel = record { buffer = []; is_closed = false }

module _ (kind : Kind) (tr_key : Text) (r : Registry) (f : IsFanned r)
    (room : r.next_subscriber_id + 1 < 2 ^ 64) where
  abbrev key : Text
  key = route_key (tr_code_of kind) tr_key

  abbrev new_id : ℕ
  new_id = (r.next_subscriber_id + 1) % 2 ^ 64

  abbrev new_handle : Handle
  new_handle = record { kind = kind; tr_code = tr_code_of kind; tr_key = tr_key; is_closed = false }

  counted : new_id ≡ r.next_subscriber_id + 1
  counted = omega (arith, room)

  new_channels :
      (id : ℕ)
      → id ≤ r.next_subscriber_id
      → is_open (insert new_id fresh_channel r.channels) id ≡ is_open r.channels id
  new_channels id known =
      let apart : nat_beq new_id id ≡ false = ground (arith, counted) in
      ap is_open_in (lookup-insert new_id id fresh_channel r.channels ∙ rw apart refl)

  -- A new subscriber of `route`.
  module _ (route : Route) (h : History)
      (live : (id : ℕ) → has_id id route.subscribers ≡ true → IsLive r kind key id)
      (distinct : Distinct route.subscribers)
      (remote_others : (k : Kind) (y : Text)
        → at kind key k y ≡ false
        → remote h k y ≡ remote r.history k y)
      (remote_here : remote h kind key ≡ true) where
    abbrev pub grown : Route
    grown = record route { subscribers = route.subscribers ++ (new_id ∷ []) }

    abbrev pub joined : Registry
    joined = record (with_routes kind (insert key grown (r.routes kind)) r) {
      next_subscriber_id = new_id;
      channels = insert new_id fresh_channel r.channels;
      handles = insert new_id new_handle r.handles;
      history = h;
    }

    is_fresh : has_id new_id route.subscribers ≡ false
    is_fresh = elim (Bool-cases (has_id new_id route.subscribers)) [
      | inr out ↦ out
      | inl old ↦ absurd (omega (arith, (live new_id old).2, counted))
    ]

    handle_found :
        (id : ℕ)
        → lookup id joined.handles
          ≡ (if nat_beq new_id id then some new_handle else lookup id r.handles)
    handle_found id = lookup-insert new_id id new_handle r.handles

    old_handle :
        (id : ℕ) → id ≤ r.next_subscriber_id → lookup id joined.handles ≡ lookup id r.handles
    old_handle id known =
        let apart : nat_beq new_id id ≡ false = ground (arith, counted) in
        handle_found id ∙ rw apart refl

    newcomer-IsLive : IsLive joined kind key new_id
    newcomer-IsLive = (
      ap home_of (lookup-insert_self new_id new_handle r.handles),
      ap is_open_in (lookup-insert_self new_id fresh_channel r.channels),
      omega arith,
    )

    grown-IsRoute : IsRoute joined kind key grown
    grown-IsRoute = record {
      live = λ id m. elim (Bool-cases (nat_beq new_id id)) [
        | inl same ↦ subst (IsLive joined kind key) ((nat_beq_iff new_id id).0 same) newcomer-IsLive
        | inr apart ↦
            let (home, opened, known) =
              live id (ground (arith, has_id-append id new_id route.subscribers)) in
            (
              ap home_of (old_handle id known) ∙ home,
              new_channels id known ∙ opened,
              omega (arith, counted),
            )
      ];
      some_there = omega (arith, length-append {0} route.subscribers (new_id ∷ []));
      distinct = Distinct-append new_id route.subscribers is_fresh distinct;
    }

    joined_coded :
        (id : ℕ) (handle : Handle)
        → lookup id joined.handles ≡ some handle
        → (handle.tr_code ≡ tr_code_of handle.kind) × (id ≤ new_id)
    joined_coded id handle there = elim (Bool-cases (nat_beq new_id id)) [
      | inl same ↦
          let own : new_handle ≡ handle = handle_inj (sym (rw same at (handle_found id)) ∙ there) in
          (
            subst (λ (h : Handle). h.tr_code ≡ tr_code_of h.kind) own refl,
            ground (arith, nat_beq_iff new_id id),
          )
      | inr apart ↦
          let (code, known) = f.coded id handle (sym (rw apart at (handle_found id)) ∙ there) in
          (code, omega (arith, counted))
    ]

    joined_own : lookup key (joined.routes kind) ≡ some grown
    joined_own =
        ap (lookup key) (with_routes_own kind (insert key grown (r.routes kind)) r)
        ∙ lookup-insert_self key grown (r.routes kind)

    join-IsChange : IsChange kind key r joined
    join-IsChange = record {
      safe = f.safe;
      grows = omega (arith, counted);
      homes = old_handle;
      coded = joined_coded;
      opens = λ id k y known home apart. new_channels id known;
      others = λ k y apart. (
        with_routes_others kind key (insert key grown (r.routes kind)) r k y apart (λ other.
            ground (
              arith,
              lookup-insert key y grown (r.routes kind),
              text_eq.beq_iff key y,
              text_eq.beq_iff y key,
            )),
        remote_others k y apart,
      );
      here = (
        remote_here ∙ ap is_some (sym joined_own),
        λ found there.
            subst (IsRoute joined kind key) (route_inj (sym joined_own ∙ there)) grown-IsRoute,
      );
    }

    join-IsFanned : IsFanned joined
    join-IsFanned = change-IsFanned kind key r joined f join-IsChange

  abbrev asked : Option Routes.Err → History
  asked reply = (subscribed kind tr_key, reply) ∷ r.history

  asked_here : remote (asked none) kind key ≡ true
  asked_here = ground (arith, kind_beq_iff kind kind, text_eq.beq_iff key key)

  asked_others :
      (reply : Option Routes.Err) (k : Kind) (y : Text)
      → at kind key k y ≡ false
      → remote (asked reply) k y ≡ remote r.history k y
  asked_others (some e) k y apart = refl
  asked_others none k y apart = ground (
    arith,
    kind_beq_iff kind k,
    kind_beq_iff k kind,
    text_eq.beq_iff key y,
    text_eq.beq_iff y key,
  )

  abbrev attached : Service → Route → Registry
  attached service route = (with_handle kind tr_key (attach service kind key tr_key route r)).0

  abbrev empty_route : Route
  empty_route = record { tr_code = tr_code_of kind; tr_key = tr_key; subscribers = [] }

  abbrev first_route : Route
  first_route = record empty_route { subscribers = new_id ∷ [] }

  abbrev placed : Option Routes.Err → Registry × Option Routes.Err
  placed reply = (
    record (with_routes kind (insert key first_route (r.routes kind)) r) {
      next_subscriber_id = new_id;
      channels = insert new_id fresh_channel r.channels;
      history = asked reply;
    },
    reply,
  )

  abbrev unplaced : Routes.Err → Registry
  unplaced e =
      let r' = (placed (some e)).0 in
      close_channel new_id (with_routes kind (delete key (r'.routes kind)) r')

  unplaced-IsChange :
      (e : Routes.Err) → lookup key (r.routes kind) ≡ none → IsChange kind key r (unplaced e)
  unplaced-IsChange e first =
      let r' = (placed (some e)).0 in
      let cut = with_routes kind (delete key (r'.routes kind)) r' in
      let same = close_channel-SameBut new_id cut in
      let gone : lookup key ((unplaced e).routes kind) ≡ none =
        ap (lookup key) (same.routes kind ∙ with_routes_own kind (delete key (r'.routes kind)) r')
        ∙ lookup-delete_self key (r'.routes kind) in
      record {
        safe =
            close_channel-safe new_id cut
              (ap is_open_in (lookup-insert_self new_id fresh_channel r.channels))
            ∙ f.safe;
        grows = omega (arith, counted, same.next);
        homes = λ id known. ap (lookup id) same.handles;
        coded = λ id handle there.
            let (code, known) = f.coded id handle (ap (lookup id) (sym same.handles) ∙ there) in
            (code, omega (arith, counted, same.next));
        opens = λ id k y known home apart.
            let other : nat_beq new_id id ≡ false = ground (arith, counted) in
            close_channel-open new_id cut id ∙ rw other (new_channels id known);
        others = λ k y apart. (
          ap (lookup y) (same.routes k)
              ∙ with_routes_others kind key (delete key (r'.routes kind)) r' k y apart (λ other.
                ground (
                  arith,
                  lookup-delete key y (r'.routes kind),
                  text_eq.beq_iff key y,
                  text_eq.beq_iff y key,
                ))
              ∙ with_routes_others kind key (insert key first_route (r.routes kind)) r k y apart
                  (λ other. ground (
                    arith,
                    lookup-insert key y first_route (r.routes kind),
                    text_eq.beq_iff key y,
                    text_eq.beq_iff y key,
                  )),
          ap (λ h. remote h k y) same.history ∙ asked_others (some e) k y apart,
        );
        here = (
          ap (λ h. remote h kind key) same.history
              ∙ f.served kind key
              ∙ ap is_some (first ∙ sym gone),
          λ route there. absurd (gone_some (sym gone ∙ there)),
        );
      }

  answered-IsFanned :
      (reply : Option Routes.Err)
      → lookup key (r.routes kind) ≡ none
      → IsFanned (with_handle kind tr_key (acquired kind key new_id (placed reply))).0
  answered-IsFanned none first =
      join-IsFanned empty_route (asked none) (λ id m. cc) tt (asked_others none) asked_here
  answered-IsFanned (some e) first =
      change-IsFanned kind key r (unplaced e) f (unplaced-IsChange e first)

  first-IsFanned :
      (service : Service)
      → lookup key (r.routes kind) ≡ none
      → IsFanned (attached service empty_route)
  unfolding attach ask
  first-IsFanned service first =
      answered-IsFanned (service r.history (subscribed kind tr_key)) first

  abbrev stored : Service → Route → List ℕ → Bool → Registry
  stored service route ids first =
      (with_handle kind tr_key (
        attach_as service kind key tr_key new_id first
          (record (with_routes kind
            (insert key (record route { subscribers = ids }) (r.routes kind)) r) {
              next_subscriber_id = new_id;
              channels = insert new_id fresh_channel r.channels;
            }))).0

  next-IsFanned :
      (service : Service) (route : Route)
      → lookup key (r.routes kind) ≡ some route
      → IsFanned (attached service route)
  unfolding attach
  next-IsFanned service route found =
      let old = f.routed kind key route found in
      let seen : remote r.history kind key ≡ true = f.served kind key ∙ ap is_some found in
      let apart = is_fresh route r.history old.live old.distinct (λ k y e. refl) seen in
      let more : nat_beq (length (route.subscribers ++ (new_id ∷ []))) 1 ≡ false =
        ground (arith, length-append {0} route.subscribers (new_id ∷ []), old.some_there) in
      let added : add_id new_id route.subscribers ≡ route.subscribers ++ (new_id ∷ []) =
        rw apart refl in
      subst (λ ids. IsFanned (stored service route ids (nat_beq (length ids) 1))) (sym added)
        (subst (λ b. IsFanned (stored service route (route.subscribers ++ (new_id ∷ [])) b))
          (sym more) (join-IsFanned route r.history old.live old.distinct (λ k y e. refl) seen))

  found_cases :
      (o : Option Route)
      → lookup key (r.routes kind) ≡ o
      → (service : Service) → IsFanned (attached service (found_route (tr_code_of kind) tr_key o))
  found_cases none first service = first-IsFanned service first
  found_cases (some route) found service = next-IsFanned service route found

  pub acquire-IsFanned :
      (service : Service)
      → IsFanned (with_handle kind tr_key (acquire service kind (tr_code_of kind) tr_key r)).0
  unfolding acquire
  acquire-IsFanned service = found_cases (lookup key (r.routes kind)) refl service
