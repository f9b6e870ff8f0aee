-- ===== src/Socket/Tests.antt =====
-- A TX socket and an RX socket of two slots, and runs of the code on them.
pub mod Sockets
mod Sends
mod Receives
mod Owners
mod Waits
