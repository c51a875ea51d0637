-- ===== src/Orgs.antt =====
-- Organizations: core/apps/orgs and core/core/saasmint_core/services/orgs.py.
pub mod Roles
pub mod Members
pub mod Cascade
pub mod Seats
pub mod Cancellation
pub mod Slugs
pub mod Checkout
pub mod Invitations
pub mod Examples
