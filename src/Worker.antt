-- ===== src/Worker.antt =====
-- apps/worker/src/index.ts: the handler of persisted workflows, over its rows in the database.
mod Tests
pub mod Handler
