-- ===== src/Msgpack/RoundTrip.antt =====
-- The writers of src/lib/schwa/msgpack/wire_impl.h with the readers that belong to them.
mod Unsigned
mod Signed
mod Sizes
mod Widths
pub use Unsigned.*
pub use Signed.*
pub use Sizes.*
pub use Widths.*
