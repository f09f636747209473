-- ===== src/Text.antt =====
-- Rust's `str` and `[u8]`: a text is the list of its UTF-8 bytes, and the functions of the standard
-- library that the runtime calls work on these.
pub mod Bytes
pub mod Split
pub mod Utf8
pub mod Decimal
