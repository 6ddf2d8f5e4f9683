-- ===== src/Wal.antt =====
-- internal/wal: the segmented write-ahead log.
pub mod Crc
pub mod Record
pub mod Segment
pub mod Disk
pub mod Log
pub mod Writer
pub mod Layout
pub mod Appends
pub mod Batches
pub mod Rescans
pub mod Recovery
pub mod Durability
pub mod Reader
pub mod Retention
pub mod Refresh
pub mod Offsets
pub mod Cursors
pub mod Delivery
mod Tests
