-- ===== src/Fields.antt =====
-- src/lib/schwa/dr/wire.h, fields.h, istore.h and field_defs_impl.h: the fields of registered classes on the
-- wire.
pub mod Stores
pub mod Passes
pub mod Values
pub mod RoundTrip
pub mod Costs
