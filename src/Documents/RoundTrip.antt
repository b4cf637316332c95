-- ===== src/Documents/RoundTrip.antt =====
-- What Writer::write of src/lib/schwa/dr/writer.cc writes, Reader::read of reader.cc reads back.
pub mod Fields
pub mod Parts
pub mod Whole
