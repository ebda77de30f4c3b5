-- ===== src/Socket.antt =====
-- internal/core/pkg/wsrefact_v5: the reconnecting websocket client whose connections come and go as generations.
pub mod Intents
pub mod Ordering
pub mod State
pub mod Workers
pub mod Loop
pub mod Client
pub mod Queries
pub mod Phases
pub mod Progress
pub mod Steady
pub mod Phased
pub mod Counts
pub mod Replies
pub mod Once
pub mod Resolving
pub mod Stranding
pub mod Writes
pub mod Activation
mod Tests
