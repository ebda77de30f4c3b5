-- ===== src/Trading/Orders.antt =====
-- internal/core/ordertracker/traker.go: the tracker of orders by their number. Log calls are left out.
pub mod Lifecycle
pub mod Reconciling
pub mod OpenOrders
use custom_hts_legacy.Prelude.{
  String, Bool, true, false, not, ◌&&◌, ◌||◌, Option, none, some, List, [], ◌∷◌, ◌==◌, string_eq,
  if◌then◌else◌,
}
use custom_hts_legacy.Prelude.Int.{ℤ, pos, ◌-ℤ◌, int64, ltb_ℤ}
use custom_hts_legacy.Prelude.Float.{round_to_int64}
use custom_hts_legacy.Prelude.Maps.{lookup, insert, delete, keys}
use custom_hts_legacy.Trading.Domain.{
  Time, Side, OrderStatus, buy, sell, status_open, status_filled, status_partial, status_cancelled,
  status_rejected, ExecEvent, OrderResponse, Order,
}

pub record TrackedOrder : Type 0 where
  pub order_id : String
  pub account_id : String
  pub broker : String
  pub code : String
  pub side : Side
  pub price : ℤ
  pub quantity : ℤ
  pub filled_qty : ℤ
  pub remain_qty : ℤ
  pub status : OrderStatus
  pub created_at : Time
  pub updated_at : Time

-- The tracker's map, from order numbers to orders.
abbrev pub Tracker : Type 0
Tracker = List (String × TrackedOrder)

unfoldable pub is_terminal : OrderStatus → Bool
is_terminal s = s == status_filled || (s == status_cancelled || s == status_rejected)

unfoldable pub map_exec_status : String → OrderStatus
map_exec_status raw =
    if raw == "accepted"
    then status_open
    else (if raw == "filled"
        then status_filled
        else (if raw == "partial"
            then status_partial
            else (if raw == "rejected" then status_rejected else raw)))

unfoldable pub convert_side : Side → Side
convert_side s = if s == "buy" then buy else (if s == "sell" then sell else s)

unfoldable pub convert_order_status : OrderStatus → OrderStatus
convert_order_status s =
    if s == "open"
    then status_open
    else (if s == "filled"
        then status_filled
        else (if s == "partial"
            then status_partial
            else (if s == "cancelled"
                then status_cancelled
                else (if s == "rejected" then status_rejected else s))))

unfoldable pub order_of_response : Time → String → OrderResponse → TrackedOrder
unfolding convert_side
order_of_response now account_id resp = record {
  order_id = resp.order_id;
  account_id = account_id;
  broker = "";
  code = resp.code;
  side = convert_side resp.side;
  price = resp.price;
  quantity = resp.quantity;
  filled_qty = pos 0;
  remain_qty = resp.quantity;
  status = status_open;
  created_at = resp.created_at;
  updated_at = now;
}

-- `Register`, at time `now`; the response is nil or an order.
unfoldable pub register : Time → String → Option OrderResponse → Tracker → Tracker
unfolding order_of_response
register now account_id none t = t
register now account_id (some resp) t =
    insert resp.order_id (order_of_response now account_id resp) t

-- The order that `Apply` registers for an unknown number, before it applies the event to it.
abbrev pub order_of_exec : ExecEvent → TrackedOrder
order_of_exec exec = record {
  order_id = exec.order_id;
  account_id = exec.account_id;
  broker = exec.broker;
  code = exec.code;
  side = exec.side;
  price = pos 0;
  quantity = exec.total_qty;
  filled_qty = pos 0;
  remain_qty = pos 0;
  status = "";
  created_at = exec.exec_time;
  updated_at = 0;
}

unfoldable pub apply_exec : ExecEvent → TrackedOrder → TrackedOrder
unfolding is_terminal map_exec_status
apply_exec exec order = if is_terminal order.status then order else record order {
  status = map_exec_status exec.status;
  filled_qty = int64 (exec.total_qty -ℤ exec.remain_qty);
  remain_qty = exec.remain_qty;
  price = if ltb_ℤ (pos 0) exec.price then exec.price else order.price;
  updated_at = exec.received_at;
}

-- The order that `Apply` works on: the tracked one, or a new one.
unfoldable pub order_for_exec : ExecEvent → Tracker → TrackedOrder
order_for_exec exec t = elim (lookup exec.order_id t) [
  | none ↦ order_of_exec exec
  | some order ↦ order
]

-- `Apply`, which changes the order in place.
unfoldable pub apply : ExecEvent → Tracker → Tracker
unfolding apply_exec order_for_exec
apply exec t = insert exec.order_id (apply_exec exec (order_for_exec exec t)) t

-- An order of a snapshot as a tracked order.
unfoldable pub order_of_snapshot : Time → String → Order → TrackedOrder
unfolding convert_side convert_order_status
order_of_snapshot now account_id o = record {
  order_id = o.order_id;
  account_id = account_id;
  broker = "";
  code = o.code;
  side = convert_side o.side;
  price = round_to_int64 o.price;
  quantity = qty;
  filled_qty = filled;
  remain_qty = int64 (qty -ℤ filled);
  status = convert_order_status o.status;
  created_at = o.created_at;
  updated_at = now;
}
  where
    qty : ℤ
    qty = round_to_int64 o.quantity

    filled : ℤ
    filled = round_to_int64 o.filled_qty

-- `snapshot[id]`.
unfoldable pub in_snapshot : List Order → String → Bool
in_snapshot [] id = false
in_snapshot (o ∷ os) id = o.order_id == id || in_snapshot os id

unfoldable pub add_if_missing : Time → String → Order → Tracker → Tracker
unfolding order_of_snapshot
add_if_missing now account_id o t = elim (lookup o.order_id t) [
  | none ↦ insert o.order_id (order_of_snapshot now account_id o) t
  | some _ ↦ t
]

-- The first loop of `Reconcile`: the orders of the snapshot that are not tracked are added.
unfoldable pub add_missing : Time → String → List Order → Tracker → Tracker
unfolding add_if_missing
add_missing now account_id [] t = t
add_missing now account_id (o ∷ os) t =
    add_missing now account_id os (add_if_missing now account_id o t)

abbrev pub is_gone : String → List Order → String → TrackedOrder → Bool
is_gone account_id orders id order =
    order.account_id == account_id
    && (not (in_snapshot orders id) && not (is_terminal order.status))

unfoldable pub remove_if_gone : String → List Order → String → Tracker → Tracker
unfolding is_terminal in_snapshot
remove_if_gone account_id orders id t = elim (lookup id t) [
  | none ↦ t
  | some order ↦ if is_gone account_id orders id order then delete id t else t
]

-- The second loop, over the numbers that the map had.
unfoldable pub remove_closed : String → List Order → List String → Tracker → Tracker
unfolding remove_if_gone
remove_closed account_id orders [] t = t
remove_closed account_id orders (id ∷ ids) t =
    remove_closed account_id orders ids (remove_if_gone account_id orders id t)

unfoldable pub reconcile : Time → String → List Order → Tracker → Tracker
unfolding add_missing remove_closed
reconcile now account_id orders t =
    let added = add_missing now account_id orders t in
    remove_closed account_id orders (keys added) added

-- `GetOpenOrders`.
unfoldable pub get_open_orders : String → Tracker → List TrackedOrder
unfolding is_terminal
get_open_orders account_id [] = []
get_open_orders account_id ((id, o) ∷ t) =
    let rest = get_open_orders account_id t in
    if o.account_id == account_id && not (is_terminal o.status) then o ∷ rest else rest

-- `HasOpenOrder`: with the empty account, of any account.
unfoldable pub has_open_order : String → String → Tracker → Bool
unfolding is_terminal
has_open_order account_id code [] = false
has_open_order account_id code ((id, o) ∷ t) =
    let rest = has_open_order account_id code t in
    if not (code == o.code) || is_terminal o.status
    then rest
    else (if account_id == "" || o.account_id == account_id then true else rest)
