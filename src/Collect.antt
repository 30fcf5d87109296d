-- ===== src/Collect.antt =====
-- internal/collect: the host metrics.
pub mod Metrics
pub mod Snapshot
pub mod Items
pub mod Documented
pub mod Lines
pub mod Inflight
pub mod Deadline
pub mod Note
pub mod Probes
pub mod Percent
pub mod Readers
pub mod Disks
pub mod Mounts
pub mod Visits
pub mod Reports
pub mod Cycle
pub mod Isolation
pub mod Sections
pub mod Filters
pub mod Skips
pub mod Tests
pub mod Runs
