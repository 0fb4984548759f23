-- ===== src/Auth.antt =====
-- packages/auth/src: who may do what with a household's records.
mod Tests
pub mod Policy
