-- ===== src/Sysdiff.antt =====
-- src/sysdiff.c: two `key=value` snapshots are read, sorted, checked for duplicate keys and merged
-- into a report. Escape holds the byte escaping, Snapshot the parsed entries, Diff the report.
pub mod Diagnostic
pub mod Escape
mod Examples
pub mod Key
pub mod Line
pub mod Snapshot
pub mod Parse
pub mod Diff
pub mod Main
