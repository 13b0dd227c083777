-- ===== src/Ingestion.antt =====
-- packages/ingestion: what the venue's public streams become.
pub mod OrderBook
pub mod Feed
pub mod Bars
