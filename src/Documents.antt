-- ===== src/Documents.antt =====
-- packages/documents/src/index.ts: what is accepted as a document, the quarantine, and the commands
-- that the object store sends.
mod Tests
pub mod Bytes
pub mod Quarantine
pub mod Commands
