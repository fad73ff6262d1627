-- ===== src/V42bis.antt =====
-- softmodem-link/src/v42bis.rs: V.42 bis data compression.
pub mod Parameters
pub mod Negotiation
pub mod Dictionary
pub mod BitWriter
pub mod Encoder
pub mod Decoder
