-- ===== src/Link.antt =====
-- softmodem-link/src/lib.rs: V.42 over a data pump's bits.
pub mod State
pub mod Codec
pub mod Send
pub mod Receive
pub mod Phases
pub mod Normal
