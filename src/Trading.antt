-- ===== src/Trading.antt =====
-- The trading core: internal/core/{pricestore, ordertracker, balancemgr, strategy, engine, ioworker},
-- with the types of internal/core/domain and internal/core/exchange that they use.
pub mod Domain
pub mod Orders
pub mod Balances
pub mod Prices
pub mod Strategy
pub mod Engine
mod Tests
