-- ===== src/Ai.antt =====
-- apps/api/app/ai/: the policy of a tenant, prices, quotas, and the gateway to the providers.
pub mod Policy
pub mod Pricing
pub mod Quota
pub mod Gateway
pub mod Rollup
