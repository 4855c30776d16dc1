-- ===== src/Examples.antt =====
-- Concrete inputs: samples, tests, and the theorems applied to them.
mod Commands
mod Scenarios
mod Samples
mod Constraints
mod Issuing
mod Trees
mod Texts
mod Pem
mod Generating
mod Tokens
mod Slots
mod Subjects
mod Exports
mod Recipients
