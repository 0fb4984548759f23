-- ===== src/Domain/Errors.antt =====
-- The messages of packages/domain/src's DomainInvariantError.
use legacy_vault.Domain.Enums.{EmergencyAccessStatus}

pub data DomainInvariantError : Type 0 where
  no_canonical_category not_confirmable evidence_required : DomainInvariantError
  actor_and_time_required dispute_workflow_required version_conflict : DomainInvariantError
  claim_evidence_required claim_version_required delay_not_elapsed : DomainInvariantError
  invalid_transition : (from to : EmergencyAccessStatus) → DomainInvariantError
