-- ===== src/Domain.antt =====
-- Domain value types (`domain.rs`), one module for each. Their fields are private in the source:
-- every value comes from `new`, or from a record update here that mirrors it.
pub mod TranType
pub mod Customer
pub mod Account
pub mod Laws
