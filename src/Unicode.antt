-- ===== src/Unicode.antt =====
-- src/lib/schwa/unicode.h and unicode.cc: UTF-8.
pub mod Masks
pub mod Utf8
pub mod RoundTrip
pub mod Decoder
pub mod Decodes
pub mod Strings
