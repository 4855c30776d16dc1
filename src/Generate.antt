-- ===== src/Generate.antt =====
-- Certificates from a spec: the second half of pkg/certtool/spec.go.
pub mod Names
pub mod Ssh
pub mod Filenames
pub mod Arguments
pub mod Reuse
pub mod Existing
pub mod One
pub mod Tree
