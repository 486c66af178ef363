-- ===== src/Tests.antt =====
-- The theorems at concrete inputs, and runs of the definitions.
mod Fixtures
mod Commands
mod Rules
mod Files
mod Sessions
mod Surface
mod Machine
mod Runs
mod Sequences
mod Chronicles
mod Agreement
