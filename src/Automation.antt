-- ===== src/Automation.antt =====
-- apps/api/app/automation/: modules, enabled by tenant.
pub mod Activation
pub mod Registry
pub mod Scheduler
