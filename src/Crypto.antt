-- ===== src/Crypto.antt =====
-- packages/crypto/src/index.ts: envelopes, wrapped household keys and the signatures of exports.
mod Tests
pub mod Samples
pub mod Envelopes
pub mod Keys
