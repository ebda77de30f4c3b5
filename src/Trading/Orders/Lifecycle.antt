-- ===== src/Trading/Orders/Lifecycle.antt =====
-- The life of a tracked order of internal/core/ordertracker: what execution events do to it.
use custom_hts_legacy.Prelude.{
  String, ◌≡◌, refl, sym, ◌∙◌, inl, inr, true, false, none, some, List, [], ◌∷◌, arith, ◌==◌,
  string_eq, Bool-cases, eq_of_==, ==-self,
}
use custom_hts_legacy.Prelude.Int.{pos, ◌-ℤ◌, Fits64, int64-of_Fits64}
use custom_hts_legacy.Prelude.Maps.{lookup, insert, lookup-insert_self, lookup-insert_ne}
use custom_hts_legacy.Trading.Domain.{Time, status_open, status_filled, ExecEvent, OrderResponse}
use custom_hts_legacy.Trading.Orders.{
  TrackedOrder, Tracker, is_terminal, map_exec_status, order_of_exec, order_for_exec, apply_exec,
  apply, order_of_response, register, has_open_order,
}

-- A sequence of events, the first of the list first.
unfoldable pub applies : List ExecEvent → Tracker → Tracker
unfolding apply
applies [] t = t
applies (exec ∷ execs) t = applies execs (apply exec t)

target_known :
    (exec : ExecEvent) (t : Tracker) (o : TrackedOrder)
    → lookup exec.order_id t ≡ some o
    → order_for_exec exec t ≡ o
unfolding order_for_exec
target_known exec t o here = rw (here, order_for_exec) refl

target_new :
    (exec : ExecEvent) (t : Tracker)
    → lookup exec.order_id t ≡ none
    → order_for_exec exec t ≡ order_of_exec exec
unfolding order_for_exec
target_new exec t absent = rw (absent, order_for_exec) refl

-- The event `exec` has updated an order that is not terminal.
pub record IsUpdated (exec : ExecEvent) (old : TrackedOrder) (new : TrackedOrder) : Type 0 where
  pub status : new.status ≡ map_exec_status exec.status
  pub remain_qty : new.remain_qty ≡ exec.remain_qty
  pub filled_qty :
      Fits64 (exec.total_qty -ℤ exec.remain_qty)
      → new.filled_qty ≡ exec.total_qty -ℤ exec.remain_qty
  pub identity :
      (new.order_id ≡ old.order_id)
      × (new.account_id ≡ old.account_id)
      × (new.code ≡ old.code)
      × (new.quantity ≡ old.quantity)

apply_exec-IsUpdated :
    (exec : ExecEvent) (old : TrackedOrder)
    → is_terminal old.status ≡ false
    → IsUpdated exec old (apply_exec exec old)
unfolding apply_exec
apply_exec-IsUpdated exec old live =
    rw (live, apply_exec)
      (record {
        status = refl;
        remain_qty = refl;
        filled_qty = λ fits. int64-of_Fits64 (exec.total_qty -ℤ exec.remain_qty) fits;
        identity = (refl, refl, refl, refl);
      })

pub apply_exec_terminal :
    (exec : ExecEvent) (o : TrackedOrder) → is_terminal o.status ≡ true → apply_exec exec o ≡ o
unfolding apply_exec
apply_exec_terminal exec o done = rw (done, apply_exec) refl

-- An execution event leaves every other order as it was. It also leaves its own order as it was if that
-- is filled, cancelled or rejected; else it gives the order, which it first adds if it is unknown, the
-- status and the quantities of the event, and keeps the order's identity.
pub apply_outcome :
    (exec : ExecEvent) (t : Tracker)
    → let o = order_for_exec exec t in
      ((id : String) → (exec.order_id == id) ≡ false → lookup id (apply exec t) ≡ lookup id t)
      × (is_terminal o.status ≡ true → lookup exec.order_id (apply exec t) ≡ some o)
      × (is_terminal o.status ≡ false
          → (o' : TrackedOrder) × (lookup exec.order_id (apply exec t) ≡ some o')
            × IsUpdated exec o o')
unfolding apply
apply_outcome exec t = (
  (λ id other. (lookup-insert_ne exec.order_id id _ t other)),
  (λ done.
      lookup-insert_self exec.order_id (apply_exec exec o) t
      ∙ rw (apply_exec_terminal exec o done) refl),
  λ live. (
    apply_exec exec o,
    (lookup-insert_self exec.order_id (apply_exec exec o) t),
    apply_exec-IsUpdated exec o live,
  ),
)
  where
    o : TrackedOrder
    o = order_for_exec exec t

apply_keeps_terminal :
    (exec : ExecEvent) (t : Tracker) (id : String) (o : TrackedOrder)
    → lookup id t ≡ some o
    → is_terminal o.status ≡ true
    → lookup id (apply exec t) ≡ some o
apply_keeps_terminal exec t id o here done = elim (Bool-cases (exec.order_id == id)) [
  | inr other ↦ (apply_outcome exec t).0 id other ∙ here
  | inl same ↦
      let e = eq_of_== exec.order_id id same in
      let is : order_for_exec exec t ≡ o = target_known exec t o (rw e here) in
      rw (sym e) ((apply_outcome exec t).1 (rw is done) ∙ rw is refl)
]

-- An order that is filled, cancelled or rejected stays as it is, whatever execution events follow.
pub applies-terminal :
    (execs : List ExecEvent) (t : Tracker) (id : String) (o : TrackedOrder)
    → lookup id t ≡ some o
    → is_terminal o.status ≡ true
    → lookup id (applies execs t) ≡ some o
unfolding applies
applies-terminal [] t id o here done = here
applies-terminal (exec ∷ execs) t id o here done =
    applies-terminal execs (apply exec t) id o (apply_keeps_terminal exec t id o here done) done

has_open_order-insert :
    (id : String) (o : TrackedOrder) (t : Tracker)
    → is_terminal o.status ≡ false
    → has_open_order "" o.code (insert id o t) ≡ true
unfolding has_open_order insert
has_open_order-insert id o [] live = ground (arith, ==-self o.code)
has_open_order-insert id o ((j, x) ∷ t) live =
    ground (arith, ==-self o.code, has_open_order-insert id o t live)

-- A response to an order that is registered after the order's fill has been notified undoes the fill: the
-- order was filled, and is then open, with nothing filled and all of its quantity remaining, and the code
-- counts as one with an open order.
pub register_undoes_fill :
    (now : Time) (account_id : String) (exec : ExecEvent) (resp : OrderResponse) (t : Tracker)
    → lookup exec.order_id t ≡ none
    → exec.status ≡ "filled"
    → resp.order_id ≡ exec.order_id
    → let filled = apply exec t in
      let t' = register now account_id (some resp) filled in
      ((o : TrackedOrder) × (lookup exec.order_id filled ≡ some o) × (o.status ≡ status_filled))
      × ((o : TrackedOrder) × (lookup exec.order_id t' ≡ some o)
          × (o.status ≡ status_open)
          × (o.filled_qty ≡ pos 0)
          × (o.remain_qty ≡ resp.quantity))
      × (has_open_order "" resp.code t' ≡ true)
unfolding register order_of_response is_terminal map_exec_status
register_undoes_fill now account_id exec resp t absent fill same =
    let fresh : order_for_exec exec t ≡ order_of_exec exec = target_new exec t absent in
    let (o, found, updated) = (apply_outcome exec t).2 (rw fresh refl) in
    (
      (o, found, updated.status ∙ rw fill refl),
      (
        order_of_response now account_id resp,
        rw (sym same) (lookup-insert_self resp.order_id (order_of_response now account_id resp) _),
        refl,
        refl,
        refl,
      ),
      has_open_order-insert resp.order_id (order_of_response now account_id resp) (apply exec t)
          refl,
    )
