-- ===== src/Files.antt =====
-- Files: internal/safefile/safefile.go, and the private files of pkg/certtool/encrypt.go.
pub mod Store
pub mod Safe
pub mod Private
pub mod Pairs
