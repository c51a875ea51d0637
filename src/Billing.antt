-- ===== src/Billing.antt =====
-- Billing: core/apps/billing and the billing services of core/core/saasmint_core/services.
pub mod Env
pub mod Customers
pub mod Events
pub mod Repositories
pub mod Services
pub mod Webhooks
pub mod Views
pub mod Credits
pub mod Examples
