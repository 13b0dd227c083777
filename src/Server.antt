-- ===== src/Server.antt =====
-- apps/server: the engine of the server, as far as it is modelled.
pub mod Breaker
pub mod Database
pub mod Indicators
pub mod Risk
pub mod Trades
