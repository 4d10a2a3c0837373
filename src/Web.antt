-- ===== src/Web.antt =====
-- The HTTP layer (`web/`): the handlers of the three inquiries. Routing is axum's, the JSON bytes are
-- serde's: a path parameter is a text, and the body of a response is the value that is serialized.
pub mod Http
pub mod Inqacc
pub mod Inqacccu
pub mod Inqcust
