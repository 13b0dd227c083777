-- ===== src/Security.antt =====
-- packages/security: the audit chain, the verification of signals, and the scope of an API key.
pub mod AuditChain
pub mod SignalAuth
pub mod KeyScope
