-- ===== src/Ls.antt =====
-- internal/adapter/broker/ls: the adapter of the LS broker, from the subscriptions of its callers down to the
-- websocket connections that carry them.
pub mod Routes
pub mod Keys
pub mod Conns
pub mod Realtime
pub mod Choosing
pub mod Placing
pub mod Managing
pub mod Acquiring
pub mod Races
pub mod Slots
pub mod Stories
pub mod Lifetimes
pub mod Losses
pub mod Messages
pub mod Causes
pub mod Streams
pub mod Fanout
pub mod Handles
pub mod Serving
pub mod Ids
pub mod Changes
pub mod Leaving
pub mod Joining
pub mod Delivering
pub mod Counting
pub mod Subscribers
mod Tests
