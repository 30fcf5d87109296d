-- ===== src/Lineproto.antt =====
-- internal/lineproto: the encoder of InfluxDB line protocol, and an independent reader of it.
pub mod Escape
pub mod Point
pub mod Encoder
pub mod Reader
pub mod Render
pub mod Reading
pub mod Sections
pub mod RoundTrip
pub mod Schema
pub mod Tags
pub mod Batch
pub mod Broken
pub mod Tests
