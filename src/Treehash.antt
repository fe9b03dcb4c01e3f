-- ===== src/Treehash.antt =====
-- src/treehash.c, in the order of the source.
pub mod Sha256
pub mod Merkle
pub mod Ignore
pub mod Walk
pub mod Operand
pub mod Main
mod Examples
