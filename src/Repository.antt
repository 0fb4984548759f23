-- ===== src/Repository.antt =====
-- packages/database/src/repository.ts: methods of the repository, each on the rows that it works on.
mod Tests
pub mod Transactions
pub mod Rows
pub mod Billing
pub mod Facts
pub mod Consents
pub mod Emergency
pub mod Idempotency
pub mod Members
pub mod Processing
