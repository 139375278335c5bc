-- ===== src/Hash.antt =====
-- The hash functions of src/hash.
pub mod Text
pub mod Djb2
pub mod Sdbm
pub mod Crc32
pub mod Crc32Bits
