-- ===== src/Io.antt =====
-- src/lib/schwa/io: byte sources and sinks.
pub mod Stream
pub mod ArrayReader
pub mod UnsafeArrayWriter
pub mod WriteBuffer
pub mod Budget
pub mod Effects
