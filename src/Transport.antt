-- ===== src/Transport.antt =====
-- softmodem-transport/src: the codec of a call's audio, and the order of its packets.
pub mod Alaw
pub mod Reorder
