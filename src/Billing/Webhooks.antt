-- ===== src/Billing/Webhooks.antt =====
-- core/core/saasmint_core/services/webhooks.py: the handlers of the Stripe events, and their dispatch.
pub mod Payload
pub mod Checkout
pub mod Sync
pub mod Schedule
pub mod Process
pub mod Frame
pub mod Recorded
pub mod Endpoint
