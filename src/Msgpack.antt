-- ===== src/Msgpack.antt =====
-- src/lib/schwa/msgpack: the MessagePack wire format.
pub mod Costs
pub mod Enums
pub mod Header
pub mod Table
pub mod Endian
pub mod Write
pub mod Read
pub mod Words
pub mod Trip
pub mod RoundTrip
pub mod Text
pub mod Lazy
pub mod Dynamic
