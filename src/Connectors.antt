-- ===== src/Connectors.antt =====
-- apps/api/app/connectors/: calls to the providers under a budget, locks, and the life of a
-- connection's tokens.
pub mod Throttle
pub mod Tokens
pub mod Models
pub mod Registry
pub mod Webhooks
pub mod Consent
pub mod Upsert
pub mod Callback
pub mod Events
pub mod Beat
pub mod Subscriptions
