-- ===== src/Tests.antt =====
-- The theorems at concrete inputs, one module for each part.
mod Hdlc
mod Codec
mod Line
mod Frame
mod Xid
mod Negotiation
mod Lapm
mod Terminal
mod Transport
mod V34
mod Link
mod Info
mod Frames
mod Command
mod Modem
