-- ===== src/Trading/Domain.antt =====
-- The events and the types that the trading core exchanges: internal/core/domain/types.go,
-- internal/core/exchange/types.go. `TickEvent`, `ExecEvent` and `TradeSignal` are used by the core but
-- declared in no file of the repository: they are records of the fields that the core reads.
use custom_hts_legacy.Prelude.{ℕ, String, List}
use custom_hts_legacy.Prelude.Int.{ℤ}
use custom_hts_legacy.Prelude.Float.{Float64}

-- A `time.Time`: an instant that is only stored.
abbrev pub Time : Type 0
Time = ℕ

abbrev pub Side : Type 0
Side = String

abbrev pub buy : Side
buy = "buy"

abbrev pub sell : Side
sell = "sell"

abbrev pub OrderType : Type 0
OrderType = String

abbrev pub limit : OrderType
limit = "limit"

abbrev pub market : OrderType
market = "market"

abbrev pub OrderStatus : Type 0
OrderStatus = String

abbrev pub status_open : OrderStatus
status_open = "open"

abbrev pub status_filled : OrderStatus
status_filled = "filled"

abbrev pub status_partial : OrderStatus
status_partial = "partial"

abbrev pub status_cancelled : OrderStatus
status_cancelled = "cancelled"

abbrev pub status_rejected : OrderStatus
status_rejected = "rejected"

pub record TickEvent : Type 0 where
  pub code : String
  pub price : ℤ
  pub volume : ℤ
  pub acc_volume : ℤ
  pub change : ℤ
  pub change_rate : ℤ
  pub trade_time : String
  pub received_at : Time

pub record ExecEvent : Type 0 where
  pub account_id : String
  pub broker : String
  pub order_id : String
  pub code : String
  pub side : Side
  pub price : ℤ
  pub quantity : ℤ
  pub remain_qty : ℤ
  pub total_qty : ℤ
  pub status : String
  pub exec_time : Time
  pub received_at : Time

pub record TradeSignal : Type 0 where
  pub account_id : String
  pub code : String
  pub side : Side
  pub type : OrderType
  pub quantity : ℤ
  pub price : ℤ

-- `exchange.OrderRequest`, `OrderResponse`, `Order`, `Balance` and `Holding`.
pub record OrderRequest : Type 0 where
  pub code : String
  pub side : Side
  pub type : OrderType
  pub quantity : ℤ
  pub price : ℤ

pub record OrderResponse : Type 0 where
  pub order_id : String
  pub code : String
  pub side : Side
  pub type : OrderType
  pub quantity : ℤ
  pub price : ℤ
  pub status : OrderStatus
  pub created_at : Time

pub record Order : Type 0 where
  pub order_id : String
  pub code : String
  pub side : Side
  pub type : OrderType
  pub quantity : Float64
  pub filled_qty : Float64
  pub price : Float64
  pub avg_fill_price : Float64
  pub status : OrderStatus
  pub created_at : Time
  pub updated_at : Time

pub record Holding : Type 0 where
  pub code : String
  pub name : String
  pub quantity : ℤ
  pub avg_cost : ℤ
  pub current_price : ℤ
  pub pnl : ℤ
  pub pnl_pct : ℤ

pub record Balance : Type 0 where
  pub total_asset : ℤ
  pub cash_balance : ℤ
  pub holdings : List Holding
