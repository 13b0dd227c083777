-- ===== src/Execution.antt =====
-- packages/execution: the order's life, its journal, and what surrounds them.
pub mod OrderState
pub mod Journal
pub mod KillSwitch
pub mod Reconciler
pub mod SimBroker
pub mod Engine
pub mod Scheduler
pub mod Strategies
