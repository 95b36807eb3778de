-- ===== src/Semantics.antt =====
-- src/ihtp_semantics.c: what the headers of a parsed message say of its body and connection.
pub mod Fields
pub mod Headers
pub mod Request
pub mod Response
pub mod Version
