-- ===== src/Repository.antt =====
-- The repository layer (`repository/`): one module for each program, behind a common frame.
pub mod Frame
pub mod Account
pub mod Read
pub mod Customer
pub mod Xfrfun
pub mod Dbcrfun
pub mod Creacc
pub mod Crecust
pub mod Delacc
pub mod Delcus
pub mod Updacc
pub mod Inqacc
pub mod Inqacccu
pub mod Inqcust
pub mod Updcust
