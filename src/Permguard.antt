-- ===== src/Permguard.antt =====
-- src/permguard.c: report risky permission bits of the paths on the command line.
pub mod Quote
pub mod Scan
pub mod Main
pub mod Examples
