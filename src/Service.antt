-- ===== src/Service.antt =====
-- The service layer (`service/`): the validation of a request, the call of the repository and the
-- result that the web layer maps to a response. `now` is what the source's `Clock` returns.
pub mod Calls
pub mod Checks
pub mod Xfrfun
pub mod Dbcrfun
pub mod Inqacc
pub mod Inqacccu
pub mod Inqcust
pub mod Crdtagy
pub mod Creacc
pub mod Crecust
pub mod Delacc
pub mod Delcus
pub mod Titles
pub mod Updacc
pub mod Updcust
