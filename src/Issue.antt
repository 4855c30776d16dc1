-- ===== src/Issue.antt =====
-- The certificates that pkg/certtool/certtool.go issues, from the arguments to the files' contents.
pub mod Args
pub mod Keys
pub mod Template
pub mod Check
pub mod Pem
pub mod Create
