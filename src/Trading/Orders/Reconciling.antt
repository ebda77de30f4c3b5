-- ===== src/Trading/Orders/Reconciling.antt =====
-- `Reconcile` of internal/core/ordertracker against a description of each order by itself.
use custom_hts_legacy.Prelude.{
  String, ◌≡◌, refl, sym, ◌∙◌, inl, inr, Bool, true, false, ◌||◌, Option, none, some, List, [], ◌∷◌,
  arith, ◌==◌, string_eq, if◌then◌else◌, Option-cases, not, ap, is_some,
}
use custom_hts_legacy.Prelude.Maps.{lookup, keys, lookup-insert, lookup-delete}
use custom_hts_legacy.Prelude.Int.{int64, ◌-ℤ◌}
use custom_hts_legacy.Prelude.Float.{round_to_int64}
use custom_hts_legacy.Trading.Domain.{Time, Side, OrderStatus, Order}
use custom_hts_legacy.Trading.Orders.{
  convert_side, convert_order_status, TrackedOrder, Tracker, is_terminal, in_snapshot, is_gone,
  order_of_snapshot, add_if_missing, add_missing, remove_if_gone, remove_closed, reconcile,
}

-- The first order of a snapshot with a number.
unfoldable pub find_order : List Order → String → Option Order
find_order [] id = none
find_order (o ∷ os) id = if o.order_id == id then some o else find_order os id

pub in_snapshot-find_order :
    (os : List Order) (id : String) → in_snapshot os id ≡ is_some (find_order os id)
unfolding in_snapshot find_order
in_snapshot-find_order [] id = refl
in_snapshot-find_order (o ∷ os) id = ground (arith, in_snapshot-find_order os id)

-- An order of the snapshot as it is tracked from then on, field by field: the snapshot names no broker, an order
-- number or a quantity is a rounded `int64`, and what remains is the difference, as an `int64`.
abbrev pub snapshot_order : Time → String → Order → TrackedOrder
snapshot_order now account_id o = record {
  order_id = o.order_id;
  account_id = account_id;
  broker = "";
  code = o.code;
  side = o.side;
  price = round_to_int64 o.price;
  quantity = round_to_int64 o.quantity;
  filled_qty = round_to_int64 o.filled_qty;
  remain_qty = int64 (round_to_int64 o.quantity -ℤ round_to_int64 o.filled_qty);
  status = o.status;
  created_at = o.created_at;
  updated_at = now;
}

convert_side_same : (s : Side) → convert_side s ≡ s
unfolding convert_side
convert_side_same s = ground (arith, string_eq.beq_iff s "buy", string_eq.beq_iff s "sell")

convert_order_status_same : (s : OrderStatus) → convert_order_status s ≡ s
unfolding convert_order_status
convert_order_status_same s = ground (
  arith,
  string_eq.beq_iff s "open",
  string_eq.beq_iff s "filled",
  string_eq.beq_iff s "partial",
  string_eq.beq_iff s "cancelled",
  string_eq.beq_iff s "rejected",
)

order_of_snapshot-snapshot_order :
    (now : Time) (account_id : String) (o : Order)
    → order_of_snapshot now account_id o ≡ snapshot_order now account_id o
unfolding order_of_snapshot
order_of_snapshot-snapshot_order now account_id o =
    ap
      (λ (side : Side). record (snapshot_order now account_id o) {
        side = side;
        status = convert_order_status o.status;
      })
      (convert_side_same o.side)
    ∙ ap (λ (status : OrderStatus). record (snapshot_order now account_id o) { status = status })
        (convert_order_status_same o.status)

abbrev pub added : Time → String → Option Order → Option TrackedOrder
added now account_id none = none
added now account_id (some o) = some (snapshot_order now account_id o)

abbrev pub or_added : Time → String → Option Order → Option TrackedOrder → Option TrackedOrder
or_added now account_id found (some old) = some old
or_added now account_id found none = added now account_id found

lookup-add_if_missing :
    (now : Time) (account_id : String) (o : Order) (t : Tracker) (id : String)
    → lookup id (add_if_missing now account_id o t)
      ≡ or_added now account_id (if o.order_id == id then some o else none) (lookup id t)
unfolding add_if_missing
lookup-add_if_missing now account_id o t id = ground (
  arith,
  lookup-insert o.order_id id (order_of_snapshot now account_id o) t,
  string_eq.beq_iff o.order_id id,
  order_of_snapshot-snapshot_order now account_id o,
)

lookup-add_missing :
    (now : Time) (account_id : String) (os : List Order) (t : Tracker) (id : String)
    → lookup id (add_missing now account_id os t)
      ≡ or_added now account_id (find_order os id) (lookup id t)
unfolding add_missing find_order
lookup-add_missing now account_id [] t id = ground arith
lookup-add_missing now account_id (o ∷ os) t id = ground (
  arith,
  lookup-add_missing now account_id os (add_if_missing now account_id o t) id,
  lookup-add_if_missing now account_id o t id,
)

-- An order is dropped that belongs to the account, has none of the three names of a closed order, and has a number
-- that no order of the snapshot has.
abbrev pub is_dropped : String → Option Order → TrackedOrder → Bool
is_dropped account_id (some found) o = false
is_dropped account_id none o =
    if o.account_id == account_id
    then (if o.status == "filled"
        then false
        else if o.status == "cancelled"
        then false
        else not (o.status == "rejected"))
    else false

is_gone-is_dropped :
    (account_id : String) (os : List Order) (id : String) (o : TrackedOrder)
    → is_gone account_id os id o ≡ is_dropped account_id (find_order os id) o
unfolding is_terminal
is_gone-is_dropped account_id os id o = elim (Option-cases (find_order os id)) [
  | inl absent ↦ rw absent (ground (arith, in_snapshot-find_order os id, ap is_some absent))
  | inr (x, found) ↦ rw found (ground (arith, in_snapshot-find_order os id, ap is_some found))
]

-- What the second loop leaves of an order.
abbrev pub kept : String → List Order → String → Option TrackedOrder → Option TrackedOrder
kept account_id os id none = none
kept account_id os id (some o) = if is_dropped account_id (find_order os id) o then none else some o

lookup-remove_if_gone :
    (account_id : String) (os : List Order) (j id : String) (t : Tracker)
    → lookup id (remove_if_gone account_id os j t)
      ≡ (if j == id then kept account_id os id (lookup id t) else lookup id t)
unfolding remove_if_gone
lookup-remove_if_gone account_id os j id t = elim (Option-cases (lookup j t)) [
  | inl absent ↦ rw (absent, remove_if_gone) (ground (arith, string_eq.beq_iff j id))
  | inr (o, here) ↦
      rw (here, remove_if_gone, is_gone-is_dropped account_id os j o)
        (ground (arith, lookup-delete j id t, string_eq.beq_iff j id))
]

kept_twice :
    (account_id : String) (os : List Order) (id : String) (found : Option TrackedOrder)
    → kept account_id os id (kept account_id os id found) ≡ kept account_id os id found
kept_twice account_id os id none = refl
kept_twice account_id os id (some o) = ground arith

abbrev visits : List String → String → Bool
visits [] id = false
visits (j ∷ ids) id = j == id || visits ids id

-- The loop keeps or drops the orders that it visits, and leaves the others.
lookup-remove_closed :
    (account_id : String) (os : List Order) (ids : List String) (t : Tracker) (id : String)
    → lookup id (remove_closed account_id os ids t)
      ≡ (if visits ids id then kept account_id os id (lookup id t) else lookup id t)
unfolding remove_closed
lookup-remove_closed account_id os [] t id = refl
lookup-remove_closed account_id os (j ∷ ids) t id = ground (
  arith,
  lookup-remove_closed account_id os ids (remove_if_gone account_id os j t) id,
  lookup-remove_if_gone account_id os j id t,
  kept_twice account_id os id (lookup id t),
)

visits-keys :
    (t : Tracker) (id : String) (o : TrackedOrder)
    → lookup id t ≡ some o
    → visits (keys t) id ≡ true
unfolding lookup
visits-keys [] id o h = cc
visits-keys ((j, x) ∷ t) id o h = ground (arith, visits-keys t id o)

-- What `Reconcile` makes of one order number.
abbrev pub reconciled :
    Time → String → List Order → String → Option TrackedOrder → Option TrackedOrder
reconciled now account_id os id none = added now account_id (find_order os id)
reconciled now account_id os id (some o) = kept account_id os id (some o)

all_visited :
    (account_id : String) (os : List Order) (t : Tracker) (id : String)
    → lookup id (remove_closed account_id os (keys t) t) ≡ kept account_id os id (lookup id t)
all_visited account_id os t id = elim (Option-cases (lookup id t)) [
  | inl absent ↦ ground (arith, lookup-remove_closed account_id os (keys t) t id)
  | inr (o, here) ↦
      ground (arith, lookup-remove_closed account_id os (keys t) t id, visits-keys t id o here)
]

kept_added :
    (now : Time) (account_id : String) (os : List Order) (id : String) (old : Option TrackedOrder)
    → kept account_id os id (or_added now account_id (find_order os id) old)
      ≡ reconciled now account_id os id old
kept_added now account_id os id (some o) = refl
kept_added now account_id os id none = elim (Option-cases (find_order os id)) [
  | inl absent ↦ rw absent refl
  | inr (o, found) ↦
      let listed : in_snapshot os id ≡ true = in_snapshot-find_order os id ∙ rw found refl in
      ground arith
]

-- `Reconcile` against a snapshot of an account's open orders, order by order. A number that was not
-- tracked is tracked afterwards just if the snapshot has it, with the fields of its first order there: its side and
-- its status by their names, its price and its quantities rounded. A tracked order is dropped just if it belongs to
-- the account, is neither filled, cancelled nor rejected, and is not in the snapshot; else it stays as it was.
pub lookup-reconcile :
    (now : Time) (account_id : String) (os : List Order) (t : Tracker) (id : String)
    → lookup id (reconcile now account_id os t) ≡ reconciled now account_id os id (lookup id t)
unfolding reconcile
lookup-reconcile now account_id os t id =
    all_visited account_id os (add_missing now account_id os t) id
    ∙ rw (lookup-add_missing now account_id os t id) (kept_added now account_id os id (lookup id t))

reconciled_agrees :
    (now : Time) (account_id : String) (os : List Order) (id : String) (old : Option TrackedOrder)
    → (o : TrackedOrder) → reconciled now account_id os id old ≡ some o
    → (o.account_id == account_id) ≡ true
    → is_terminal o.status ≡ false
    → in_snapshot os id ≡ true
reconciled_agrees now account_id os id none o h mine live = elim (Option-cases (find_order os id)) [
  | inl absent ↦ cc (rw absent at h)
  | inr (x, found) ↦ in_snapshot-find_order os id ∙ rw found refl
]
reconciled_agrees now account_id os id (some x) o h mine live =
    ground (arith, is_gone-is_dropped account_id os id x)

-- After `Reconcile`, the orders of the account that are not filled, cancelled or rejected are all in the
-- snapshot; every number of the snapshot is tracked; and no order of another account has changed, if its
-- number is tracked.
pub reconcile_agrees :
    (now : Time) (account_id : String) (os : List Order) (t : Tracker) (id : String)
    → let t' = reconcile now account_id os t in
      ((o : TrackedOrder)
        → lookup id t' ≡ some o
        → (o.account_id == account_id) ≡ true
        → is_terminal o.status ≡ false
        → in_snapshot os id ≡ true)
      × (in_snapshot os id ≡ true → is_some (lookup id t') ≡ true)
      × ((o : TrackedOrder)
          → lookup id t ≡ some o
          → (o.account_id == account_id) ≡ false
          → lookup id t' ≡ some o)
reconcile_agrees now account_id os t id = (
  (λ o h mine live.
      reconciled_agrees now account_id os id (lookup id t) o
        (sym (lookup-reconcile now account_id os t id) ∙ h) mine live),
  (λ listed. rw (lookup-reconcile now account_id os t id) (tracked listed)),
  (λ o here other. lookup-reconcile now account_id os t id ∙ rw here (foreign_kept o other)),
)
  where
    foreign_kept :
        (o : TrackedOrder)
        → (o.account_id == account_id) ≡ false
        → reconciled now account_id os id (some o) ≡ some o
    foreign_kept o other = elim (Option-cases (find_order os id)) [
      | inl absent ↦ rw (absent, other) refl
      | inr (x, found) ↦ rw found refl
    ]

    tracked :
        in_snapshot os id ≡ true → is_some (reconciled now account_id os id (lookup id t)) ≡ true
    tracked listed = elim (Option-cases (lookup id t)) [
      | inl absent ↦ elim (Option-cases (find_order os id)) [
        | inl nowhere ↦
            let out : in_snapshot os id ≡ false = in_snapshot-find_order os id ∙ rw nowhere refl in
            absurd (cc (sym listed ∙ out))
        | inr (o, found) ↦ rw (absent, found) refl
      ]
      | inr (o, here) ↦ rw here (ground (arith, is_gone-is_dropped account_id os id o))
    ]
