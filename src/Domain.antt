-- ===== src/Domain.antt =====
-- packages/domain/src: the entities and the pure rules on them.
mod Tests
pub mod Enums
pub mod Entities
pub mod Billing
pub mod Errors
pub mod Facts
pub mod Permissions
pub mod Retention
pub mod Emergency
pub mod Consents
pub mod Claims
pub mod Steps
