-- ===== src/Openunlink.antt =====
-- src/openunlink.c: report the zero-link regular files that a process holds open.
pub mod Number
pub mod State
pub mod Finding
pub mod Inspect
pub mod Scan
pub mod Main
pub mod Examples
