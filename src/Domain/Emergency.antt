-- ===== src/Domain/Emergency.antt =====
-- packages/domain/src/workflows.ts: transitionEmergencyAccess.
pub mod Transitions
use legacy_vault.Base.{
  ◌+◌, String, Bool, true, false, not, ◌&&◌, Option, none, some, List, [], ◌∷◌, truthy?, contains,
  Dates, lt?, Result, ok, ◌>>=◌, ◌>>◌, throw_if,
}
use legacy_vault.Domain.Enums.{
  EmergencyAccessStatus, requested, approved, denied, delayed, released, revoked, emergency_eq,
}
use legacy_vault.Domain.Entities.{EmergencyAccessRequest}
use legacy_vault.Domain.Errors.{DomainInvariantError, invalid_transition, delay_not_elapsed}

abbrev pub emergency_transitions : EmergencyAccessStatus → List EmergencyAccessStatus
emergency_transitions requested = approved ∷ denied ∷ delayed ∷ revoked ∷ []
emergency_transitions approved = delayed ∷ released ∷ revoked ∷ []
emergency_transitions denied = []
emergency_transitions delayed = approved ∷ denied ∷ released ∷ revoked ∷ []
emergency_transitions released = revoked ∷ []
emergency_transitions revoked = []

abbrev pub is_released : EmergencyAccessStatus → Bool
is_released released = true
is_released _ = false

module _ (dates : Dates) where
  -- `Date.parse(at) < Date.parse(releaseAfter)`
  abbrev is_before : String → Option String → Bool
  is_before at none = false
  is_before at (some text) = lt? (dates.parse at) (dates.parse text)

  unfoldable pub transition_emergency_access :
      EmergencyAccessRequest
      → EmergencyAccessStatus
      → String
      → Result DomainInvariantError EmergencyAccessRequest
  transition_emergency_access request next at = do
    throw_if (not (contains (emergency_transitions request.status) next))
        (invalid_transition request.status next)
    throw_if
        (is_released next && (truthy? request.release_after && is_before at request.release_after))
        delay_not_elapsed
    ok (record request { status = next; decision_at = some at; version = request.version + 1 })
