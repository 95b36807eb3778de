-- ===== src/Body.antt =====
-- src/ihtp_body_decoder.c and include/iohttpparser/ihtp_body.h: the two body decoders.
pub mod Chunked
pub mod Fixed
