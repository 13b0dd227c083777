-- ===== src/Tests.antt =====
-- The theorems at concrete inputs, and runs of the definitions.
mod Orders
mod Flow
mod Market
mod Safety
mod Amounts
mod Accounts
mod Breakers
mod Live
mod Feeds
mod Panic
