-- ===== src/Documents.antt =====
-- src/lib/schwa/dr/reader.cc and writer.cc: streams of documents.
pub mod Runtime
pub mod Writer
pub mod Reader
pub mod RoundTrip
pub mod Bounds
