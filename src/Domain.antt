-- ===== src/Domain.antt =====
-- The domain models: core/core/saasmint_core/domain/, with the rows of core/apps/*/models.py that
-- mirror them. A UUID and an instant (seconds since the epoch) are numbers: the code compares them
-- and never computes with the former.
mod Subscriptions
mod Orgs
mod Users
unfoldable pub use Subscriptions.*
unfoldable pub use Orgs.*
unfoldable pub use Users.*
