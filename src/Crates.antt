-- ===== src/Crates.antt =====
-- The third-party crates as the program sees them: `rust_decimal`, `chrono` and `sqlx` are not
-- part of the repository, so their types and functions are parameters.
-- `Crates` lists what the code calls. `IsLawful` states what it relies on: the arithmetic of
-- `Decimal` on amounts of money, and that a failed constraint is no serialization failure.
mod Defs
pub mod Cents
unfoldable pub use Defs.*
