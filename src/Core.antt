-- ===== src/Core.antt =====
-- packages/core: the intents of a strategy, and exact decimal money.
pub mod Intent
pub mod Decimal
pub mod Money
pub mod Bus
pub mod Book
