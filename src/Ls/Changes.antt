-- ===== src/Ls/Changes.antt =====
-- The operations of internal/adapter/broker/ls/client that change a route, one route at a time.
use custom_hts_legacy.Prelude.{
  ℕ, ◌≤◌, ◌<◌, ◌≡◌, refl, sym, ◌∙◌, ap, Bool, true, false, ◌&&◌, some, List, arith, ◌==◌, nat_eq,
  inl, inr, length, Bool-cases, is_some,
}
use custom_hts_legacy.Prelude.Texts.{Text, text_eq}
use custom_hts_legacy.Prelude.Maps.{lookup}
use custom_hts_legacy.Ls.Fanout.{
  Kind, kind_beq, kind_beq_iff, kind_eq, tr_code_of, Route, Handle, History, Registry, has_id,
  close_channels, with_routes,
}
use custom_hts_legacy.Ls.Serving.{
  remote, home_of, is_open, Distinct, IsRoute, IsFanned, same_route, close_channels-SameBut,
  close_channels-safe, close_channels-other,
}

abbrev pub at : Kind → Text → Kind → Text → Bool
at kind key k y = k == kind && y == key

pub with_routes_own :
    (kind : Kind) (table : List (Text × Route)) (r : Registry)
    → (with_routes kind table r).routes kind ≡ table
with_routes_own kind table r =
    let own : kind_beq kind kind ≡ true = (kind_beq_iff kind kind).1 refl in rw own refl

pub with_routes_others :
    (kind : Kind) (key : Text) (table : List (Text × Route)) (r : Registry) (k : Kind) (y : Text)
    → at kind key k y ≡ false
    → ((y == key) ≡ false → lookup y table ≡ lookup y (r.routes kind))
    → lookup y ((with_routes kind table r).routes k) ≡ lookup y (r.routes k)
with_routes_others kind key table r k y apart others = elim (Bool-cases (k == kind)) [
  | inr other ↦ rw other refl
  | inl same ↦
      rw same (
        others (ground arith)
        ∙ ap (λ k. lookup y (r.routes k)) (sym ((kind_beq_iff k kind).0 same)))
]

-- A change of one route, and of channels that only its subscribers have.
pub record IsChange (kind : Kind) (key : Text) (r r' : Registry) : Type 0 where
  pub safe : r'.panicked ≡ false
  pub grows : r.next_subscriber_id ≤ r'.next_subscriber_id
  pub homes : (id : ℕ) → id ≤ r.next_subscriber_id → lookup id r'.handles ≡ lookup id r.handles
  pub coded :
      (id : ℕ) (h : Handle)
      → lookup id r'.handles ≡ some h
      → (h.tr_code ≡ tr_code_of h.kind) × (id ≤ r'.next_subscriber_id)
  pub opens :
      (id : ℕ) (k : Kind) (y : Text)
      → id ≤ r.next_subscriber_id
      → home_of (lookup id r.handles) ≡ some (k, y)
      → at kind key k y ≡ false
      → is_open r'.channels id ≡ is_open r.channels id
  pub others :
      (k : Kind) (y : Text)
      → at kind key k y ≡ false
      → (lookup y (r'.routes k) ≡ lookup y (r.routes k))
        × (remote r'.history k y ≡ remote r.history k y)
  pub here :
      (remote r'.history kind key ≡ is_some (lookup key (r'.routes kind)))
      × ((route : Route) → lookup key (r'.routes kind) ≡ some route → IsRoute r' kind key route)

module _ (kind : Kind) (key : Text) (r r' : Registry) (f : IsFanned r)
    (c : IsChange kind key r r') where
  moved_route :
      (k : Kind) (y : Text) (route : Route)
      → at kind key k y ≡ false
      → IsRoute r k y route
      → IsRoute r' k y route
  moved_route k y route apart old = record {
    live = λ id m.
        let (home, opened, known) = old.live id m in
        (
          ap home_of (c.homes id known) ∙ home,
          c.opens id k y known home apart ∙ opened,
          omega (arith, c.grows),
        );
    some_there = old.some_there;
    distinct = old.distinct;
  }

  pub change-IsFanned : IsFanned r'
  change-IsFanned = record {
    safe = c.safe;
    coded = c.coded;
    served = λ k y. elim (Bool-cases (at kind key k y)) [
      | inl same ↦
          same_route (λ k y. remote r'.history k y ≡ is_some (lookup y (r'.routes k))) kind k key y
            same c.here.0
      | inr apart ↦
          let (table, history) = c.others k y apart in
          history ∙ f.served k y ∙ ap is_some (sym table)
    ];
    routed = λ k y. elim (Bool-cases (at kind key k y)) [
      | inl same ↦
          same_route
            (λ k y. (route : Route) → lookup y (r'.routes k) ≡ some route → IsRoute r' k y route)
            kind k key y same c.here.1
      | inr apart ↦ λ route found.
          let (table, _) = c.others k y apart in
          moved_route k y route apart (f.routed k y route (sym table ∙ found))
    ];
  }

-- Some subscribers of a route leave it, and their channels are closed.
module _ (kind : Kind) (key : Text) (route : Route) (r : Registry) (f : IsFanned r)
    (found : lookup key (r.routes kind) ≡ some route) (ids : List ℕ) (table : List (Text × Route))
    (h : History) (members : (id : ℕ) → has_id id ids ≡ true → has_id id route.subscribers ≡ true)
    (distinct : Distinct ids)
    (table_others : (y : Text) → (y == key) ≡ false → lookup y table ≡ lookup y (r.routes kind))
    (remote_others : (k : Kind) (y : Text)
      → at kind key k y ≡ false
      → remote h k y ≡ remote r.history k y)
    (remote_here : remote h kind key ≡ is_some (lookup key table))
    (rest : (left : Route)
      → lookup key table ≡ some left
      → (0 < length left.subscribers)
        × Distinct left.subscribers
        × ((id : ℕ)
            → has_id id left.subscribers ≡ true
            → (has_id id route.subscribers ≡ true) × (has_id id ids ≡ false))) where
  abbrev pub cut : Registry
  cut = with_routes kind table (record r { history = h })

  abbrev pub left_over : Registry
  left_over = close_channels ids cut

  leaver_home : (id : ℕ) → has_id id ids ≡ true → home_of (lookup id r.handles) ≡ some (kind, key)
  leaver_home id m = ((f.routed kind key route found).live id (members id m)).0

  stays :
      (id : ℕ) (k : Kind) (y : Text)
      → home_of (lookup id r.handles) ≡ some (k, y)
      → at kind key k y ≡ false
      → has_id id ids ≡ false
  stays id k y home apart = elim (Bool-cases (has_id id ids)) [
    | inr out ↦ out
    | inl leaves ↦ ground (arith, leaver_home id leaves, kind_beq_iff k kind, text_eq.beq_iff y key)
  ]

  own_table : lookup key (left_over.routes kind) ≡ lookup key table
  own_table = ap (lookup key) (
      (close_channels-SameBut ids cut).routes kind
      ∙ with_routes_own kind table (record r { history = h }))

  left_route :
      (left : Route)
      → lookup key (left_over.routes kind) ≡ some left
      → IsRoute left_over kind key left
  left_route left there =
      let same = close_channels-SameBut ids cut in
      let old = f.routed kind key route found in
      let (some_there, apart, sub) = rest left (sym own_table ∙ there) in
      record {
        some_there = some_there;
        distinct = apart;
        live = λ id m.
            let (was, kept) = sub id m in
            let (home, opened, known) = old.live id was in
            (
              ap home_of (ap (lookup id) same.handles) ∙ home,
              close_channels-other ids id cut kept ∙ opened,
              omega (arith, same.next),
            );
      }

  leave-IsChange : IsChange kind key r left_over
  leave-IsChange =
      let same = close_channels-SameBut ids cut in
      let old = f.routed kind key route found in
      record {
        safe =
            close_channels-safe ids cut distinct (λ id m. (old.live id (members id m)).1) ∙ f.safe;
        grows = omega (arith, same.next);
        homes = λ id known. ap (lookup id) same.handles;
        coded = λ id handle there. rw same.next (f.coded id handle (rw same.handles at there));
        opens =
            λ id k y known home apart. close_channels-other ids id cut (stays id k y home apart);
        others = λ k y apart. (
          ap (lookup y) (same.routes k)
              ∙ with_routes_others kind key table (record r { history = h }) k y apart
                  (table_others y),
          ap (λ g. remote g k y) same.history ∙ remote_others k y apart,
        );
        here = (
          ap (λ g. remote g kind key) same.history ∙ remote_here ∙ ap is_some (sym own_table),
          left_route,
        );
      }

  pub leave-IsFanned : IsFanned left_over
  leave-IsFanned = change-IsFanned kind key r left_over f leave-IsChange
