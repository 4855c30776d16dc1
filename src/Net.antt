-- ===== src/Net.antt =====
-- The parts of Go's package net that the program calls.
pub mod HostPort
pub mod Address
pub mod Range
pub mod Print
