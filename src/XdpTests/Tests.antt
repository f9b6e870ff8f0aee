-- ===== src/XdpTests/Tests.antt =====
-- The programs of xdp-tests on small systems.
mod Network
mod Worlds
mod Programs
mod Suites
