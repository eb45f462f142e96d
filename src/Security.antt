-- ===== src/Security.antt =====
-- src/security: the ledger of previewed actions, standing grants, the tool policy, the confirmation
-- handler, and the identity of a web request.
pub mod Ledger
pub mod Grants
pub mod Policy
pub mod WebIdentity
pub mod Patterns
pub mod Exchange
pub mod Confirm
