-- ===== src/Text.antt =====
-- Rust's `String` and `&str` as the program uses them: a text is the list of its Unicode scalar
-- values, so `chars()` is the list itself. Literals of the source are native strings under `codes`.
mod Defs
pub mod Decimal
pub mod Digits
pub mod Laws
pub mod Parse
unfoldable pub use Defs.*
