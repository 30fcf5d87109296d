-- ===== src/Push.antt =====
-- internal/push: delivery of batches to the ingest endpoint.
pub mod Transport
pub mod Pusher
mod Frame
pub mod Flush
pub mod Retry
pub mod Buffer
pub mod Send
pub mod Ledger
pub mod Tests
