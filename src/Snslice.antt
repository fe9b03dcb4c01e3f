-- ===== src/Snslice.antt =====
-- src/snslice.c: partition a stream of records into chunk files.
pub mod Boundary
pub mod Chunk
pub mod Stream
pub mod Options
pub mod Diagnostic
pub mod Main
pub mod Examples
