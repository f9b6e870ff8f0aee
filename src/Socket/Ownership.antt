-- ===== src/Socket/Ownership.antt =====
-- Who may touch which frame of a TX socket: the frames in its available slots, those on the
-- Completion ring, and those that the kernel holds, under any order of calls and kernel steps.
pub mod Window
pub mod Steps
pub mod Kernel
pub mod Peeking
pub mod Exclusive
pub mod Reachable
pub mod Pool
pub mod Aliasing
pub mod InOrder
pub mod Start
