-- ===== src/Docker.antt =====
-- internal/docker: container samples over the Docker or Podman socket.
pub mod Restart
pub mod Schedule
pub mod Records
pub mod Sample
pub mod Usage
pub mod Collect
pub mod Http
pub mod Detect
pub mod Detected
pub mod Cycle
pub mod Kept
pub mod Encode
pub mod Answers
pub mod Lines
pub mod Tasks
pub mod Replies
pub mod Local
pub mod InTurn
pub mod Interleave
pub mod Tests
mod Runs
