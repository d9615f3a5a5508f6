-- ===== src/Serialize.antt =====
-- The binary format of src/trivialserialize.hpp and src/trivialserialize.cpp: class `generator`
-- writes it, class `parser` reads it.
pub mod Generator
pub mod Parser
pub mod Integers
pub mod Varint
pub mod Strings
pub mod Codec
pub mod Vectors
pub mod Maps
pub mod Buffer
pub mod RoundTrip
mod Tests
