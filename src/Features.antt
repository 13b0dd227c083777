-- ===== src/Features.antt =====
-- packages/features: incremental features of the market.
pub mod RingBuffer
pub mod Rolling
