-- ===== src/Journal.antt =====
-- The journal server: src/journal-server.
pub mod SegmentStatus
