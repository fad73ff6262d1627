-- ===== src/V34.antt =====
-- softmodem-dsp/src/v34: the sequences and the framing of V.34.
pub mod Bits
pub mod Reader
pub mod Mp
pub mod Shell
pub mod Info
pub mod Frames
