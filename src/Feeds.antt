-- ===== src/Feeds.antt =====
-- internal/core/pkg/{subscription, circuitbreaker, ringbuffer}: the shared subscriptions to feeds of
-- market data, the breaker that watches their failures, and the ring of ticks.
pub mod Subscriptions
pub mod Live
pub mod Breaker
pub mod Openings
pub mod Ring
pub mod Reading
mod Tests
