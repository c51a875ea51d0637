-- ===== src/Database.antt =====
-- The database, and the steps that read it, write it and raise.
pub mod Result
mod State
unfoldable pub use State.*
