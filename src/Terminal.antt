-- ===== src/Terminal.antt =====
-- softmodem-terminal/src: the parts of the terminal that stand between the computer and the modem.
pub mod Escape
pub mod Line
pub mod Command
pub mod Settings
