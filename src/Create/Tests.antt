-- ===== src/Create/Tests.antt =====
-- The creation of sockets on concrete systems.
pub mod Systems
mod Creations
mod Completions
