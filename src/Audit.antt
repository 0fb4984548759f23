-- ===== src/Audit.antt =====
-- packages/audit/src: the chained audit log and its store.
mod Tests
pub mod Chain
pub mod Store
