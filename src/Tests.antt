-- ===== src/Tests.antt =====
-- Runs at fixed inputs, and the theorems at inputs where their hypotheses hold.
mod Bytes
mod Bencode
mod Bitfield
mod MetaInfo
mod Magnet
mod WireGuard
mod Http
mod Tracker
mod Picker
