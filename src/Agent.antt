-- ===== src/Agent.antt =====
-- cmd/observant-agent: the main program.
pub mod State
pub mod Batch
pub mod Loop
mod Frame
pub mod Posts
pub mod Heartbeat
pub mod Calls
pub mod Wired
pub mod Wiring
pub mod Redetect
pub mod Quiet
pub mod OneLine
pub mod Human
pub mod Print
pub mod Containers
pub mod SelfCheck
pub mod Start
pub mod Modes
pub mod Launch
pub mod Checked
pub mod Logs
pub mod Tests
mod Runs
