-- ===== src/Lineproto/Sections.antt =====
-- The sections of a line, as the reader takes them in.
pub mod Tags
pub mod Values
pub mod Fields
pub mod Time
