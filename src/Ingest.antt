-- ===== src/Ingest.antt =====
-- internal/ingest: from an accepted request to the event store.
pub mod Envelope
pub mod Dedupe
pub mod Pipeline
pub mod Runs
pub mod Http
mod Tests
