-- ===== src/Mux.antt =====
-- internal/core/pkg/wsrefact_v6: the multiplexer that owns the desired subscriptions, places them on
-- reconnecting websocket workers and replays them.
pub mod Types
pub mod Keys
pub mod Placement
pub mod Slot
pub mod Commands
pub mod Loop
pub mod Least
pub mod Resolution
pub mod Subscribing
pub mod Unsubscribing
pub mod Consistency
pub mod Invariant
pub mod Outcomes
pub mod Replay
pub mod Lifecycle
pub mod Fatal
pub mod Heartbeat
pub mod Ticks
pub mod Config
pub mod Client
pub mod IoWorker
pub mod Connections
mod Tests
