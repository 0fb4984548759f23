-- ===== src/Reports.antt =====
-- packages/reports/src/index.ts: generated reports, and the paths of a portable export.
mod Tests
pub mod Generate
pub mod Portable
