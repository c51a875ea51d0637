-- ===== src/Users.antt =====
-- The accounts: core/apps/users.
pub mod Accounts
pub mod Tokens
pub mod Access
pub mod Auth
pub mod OAuth
pub mod Exchange
pub mod Deletion
pub mod Examples
