-- ===== src/Codec.antt =====
-- drey/src/persist/codec.rs: the little-endian encoding of values and records. `Writer` and
-- `Reader` have the reads and writes of numbers, bytes and strings, `Values` and `Records` what is
-- built of them, and `Crc` the checksum; `Decodes` has the rules for round trips, which `ValueTrip`
-- and `RecordTrip` apply.
pub mod Utf8
pub mod Le
pub mod Writer
pub mod Reader
pub mod Decodes
pub mod Values
pub mod ValueTrip
pub mod Records
pub mod Crc
pub mod RecordTrip
