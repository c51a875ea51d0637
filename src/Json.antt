-- ===== src/Json.antt =====
-- The values of a decoded Stripe payload, and what Python's subscripts, `.get`, truth tests and `len`
-- do on them, exceptions included. Numbers are the non-negative ones: `num n` is an `int`, and
-- `real n` a `float` with a fractional part between n and n + 1.
mod Values
pub mod Access
pub use Values.*
