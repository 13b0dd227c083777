-- ===== src/Live.antt =====
-- packages/adapters-bybit: the live adapter of the venue.
pub mod AccountEvents
pub mod Broker
pub mod PrivateWs
pub mod Pipeline
