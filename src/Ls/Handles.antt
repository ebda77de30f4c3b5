-- ===== src/Ls/Handles.antt =====
-- internal/adapter/broker/ls/client/ws.go, and the handles of subscription.go: what a caller does with the
-- client, and what the client's dispatch loops do, as the steps of one state.
use custom_hts_legacy.Prelude.{
  ℕ, true, false, Option, none, some, List, [], ◌∷◌, if◌then◌else◌, nat_eq, ◌⊎◌, inl, inr,
}
use custom_hts_legacy.Prelude.Texts.{Text}
use custom_hts_legacy.Prelude.Maps.{lookup, insert}
use custom_hts_legacy.Ls.Routes.{normalize_realtime_code, normalize_execution_key}
use custom_hts_legacy.Ls.Routes
use custom_hts_legacy.Ls.Fanout.{
  Kind, trade, quote, execution, tr_code_of, Err, subscription_not_found, other, Message, Channel,
  Handle, Service, Registry, acquire, release, close_route, publish,
}

-- SubscribeTrade and SubscribeQuote take a stock code, SubscribeExecution an HTS identifier.
unfoldable pub normalize : Kind → Text → Routes.Err ⊎ Text
normalize trade code = normalize_realtime_code (tr_code_of trade) code
normalize quote code = normalize_realtime_code (tr_code_of quote) code
normalize execution hts_id = normalize_execution_key hts_id

abbrev pub with_handle : Kind → Text → Registry × (Err ⊎ ℕ) → Registry × (Err ⊎ ℕ)
with_handle kind tr_key (r, inl e) = (r, inl e)
with_handle kind tr_key (r, inr id) = (
  record r {
    handles =
        insert id
          (record { kind = kind; tr_code = tr_code_of kind; tr_key = tr_key; is_closed = false })
          r.handles;
  },
  inr id,
)

abbrev pub subscribe_key : Service → Kind → Routes.Err ⊎ Text → Registry → Registry × (Err ⊎ ℕ)
subscribe_key service kind (inl e) r = (r, inl (other e))
subscribe_key service kind (inr tr_key) r =
    with_handle kind tr_key (acquire service kind (tr_code_of kind) tr_key r)

unfoldable pub subscribe : Service → Kind → Text → Registry → Registry × (Err ⊎ ℕ)
unfolding normalize
subscribe service kind text r = subscribe_key service kind (normalize kind text) r

abbrev pub unsubscribe_key : Service → Kind → Routes.Err ⊎ Text → Registry → Registry × Option Err
unsubscribe_key service kind (inl e) r = (r, some (other e))
unsubscribe_key service kind (inr tr_key) r = close_route service kind (tr_code_of kind) tr_key r

-- The whole route goes, whoever holds a part of it.
unfoldable pub unsubscribe : Service → Kind → Text → Registry → Registry × Option Err
unfolding normalize
unsubscribe service kind text r = unsubscribe_key service kind (normalize kind text) r

abbrev pub mark_closed : ℕ → Handle → Registry → Registry
mark_closed id h r = record r { handles = insert id (record h { is_closed = true }) r.handles }

abbrev pub detached : ℕ → Handle → Registry × Option Err → Registry × Option Err
detached id h (r, none) = (mark_closed id h r, none)
detached id h (r, some (subscription_not_found kind tr_code tr_key)) = (mark_closed id h r, none)
detached id h (r, some (other e)) = (r, some (other e))

-- `Close` of a handle.
unfoldable pub close : Service → ℕ → Registry → Registry × Option Err
close service id r = elim (lookup id r.handles) [
  | none ↦ (r, none)
  | some h ↦
      if h.is_closed
      then (r, none)
      else detached id h (release service h.kind h.tr_code h.tr_key id r)
]

abbrev pub taken : ℕ → Channel → Registry → List Message → Registry × Option Message
taken id ch r [] = (r, none)
taken id ch r (msg ∷ rest) =
    (record r { channels = insert id (record ch { buffer = rest }) r.channels }, some msg)

-- A caller receives from its channel; no answer is one that would block or that the close gives.
unfoldable pub receive : ℕ → Registry → Registry × Option Message
receive id r = elim (lookup id r.channels) [ none ↦ (r, none) | some ch ↦ taken id ch r ch.buffer ]

pub data Op : Type 0 where
  subscribes unsubscribes : Kind → Text → Op
  closes receives : ℕ → Op
  publishes : Kind → Message → Op

unfoldable pub step : Service → Op → Registry → Registry
step service (subscribes kind text) r = (subscribe service kind text r).0
step service (unsubscribes kind text) r = (unsubscribe service kind text r).0
step service (closes id) r = (close service id r).0
step service (receives id) r = (receive id r).0
step service (publishes kind msg) r = (publish kind msg r).0

unfoldable pub run : Service → List Op → Registry → Registry
unfolding step
run service [] r = r
run service (op ∷ ops) r = run service ops (step service op r)
