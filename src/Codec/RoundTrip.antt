-- ===== src/Codec/RoundTrip.antt =====
-- codec.rs: what `Writer` writes, `Reader` reads back, field by field and message by message.
pub mod Fields
pub mod Paths
pub mod Records
pub mod Wire
