-- ===== src/Tests.antt =====
-- Runs on concrete tables, and the examples that apply the theorems.
pub mod Data
pub mod Facts
mod Transfer
mod Frame
mod Values
mod Payment
mod Agency
mod Opening
mod Deletion
mod Complete
mod Inquiry
mod Update
mod Customer
