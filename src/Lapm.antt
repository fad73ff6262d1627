-- ===== src/Lapm.antt =====
-- softmodem-link/src/lapm.rs: the LAPM procedures of V.42 over whole frames. `State` has the
-- state of one end and its small operations, `Transmit` what `next_frame` calls, `Receive` what
-- `receive` calls.
pub mod State
pub mod Transmit
pub mod Receive
pub mod Invariant
pub mod Window
