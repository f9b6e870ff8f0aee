-- ===== src/XdpTests.antt =====
-- xdp-tests: the test harness, and the programs that put the crates xdp-socket and xdp-util together.
pub mod Addresses
pub mod Machine
pub mod Meanwhile
pub mod Pinger
pub mod PingerMain
pub mod Pinging
pub mod PingFails
pub mod PingEnds
pub mod Command
pub mod Restart
pub mod VethPair
pub mod Setup
pub mod Runner
pub mod UdpPingpong
pub mod Pingpong
pub mod Passing
mod Tests
pub mod Sender
pub mod SenderMain
pub mod Writing
pub mod Ponger
pub mod Echoes
pub mod Delivery
pub mod Rounds
pub mod Leaving
pub mod Dropping
pub mod Released
