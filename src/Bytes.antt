-- ===== src/Bytes.antt =====
-- util/bytes.hpp and util/bytes.cpp.
pub mod Hex
pub mod Base32
pub mod BigEndian
pub mod Text
pub mod Sanitize
