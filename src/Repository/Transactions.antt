-- ===== src/Repository/Transactions.antt =====
-- packages/database/src/repository.ts: the contexts of the calls, the errors that the methods throw,
-- and withTenant and withAccount. The session's settings choose the rows that the policies of the
-- database let through: here the tables hold the rows of one household.
use legacy_vault.Base.{String, Result, ok, err}

pub record TenantContext : Type 0 where
  pub organization_id : String
  pub household_id : String
  pub actor_id : String

pub record AccountContext : Type 0 where
  pub auth_user_id : String

-- `unique_violation` is the database's own error 23505.
pub data RepositoryError : Type 0 where
  unique_violation confirmation_conflict rejection_conflict : RepositoryError
  dispute_conflict fact_unavailable recipient_invalid request_unavailable : RepositoryError
  decision_conflict release_conflict idempotency_conflict still_processing : RepositoryError
  role_not_assignable invitation_conflict invitation_version_conflict : RepositoryError
  invitation_unavailable revocation_conflict role_update_conflict : RepositoryError
  document_unavailable document_conflict document_workflow_conflict derivative_conflict
        consent_conflict :
      RepositoryError

-- An operation on the tables `S` answers and leaves new tables, or throws.
abbrev pub Operation : Type 0 → Type 0 → Type 0
Operation S A = S → Result RepositoryError (A × S)

-- `begin`, the operation, and then `commit`, or `rollback` and the same error.
abbrev pub with_tenant : {S A : Type 0} → Operation S A → S → Result RepositoryError A × S
with_tenant operation tables = elim (operation tables) [
  | ok (answer, after) ↦ (ok answer, after)
  | err e ↦ (err e, tables)
]
