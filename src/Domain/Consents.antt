-- ===== src/Domain/Consents.antt =====
-- packages/domain/src/workflows.ts: hasActiveConsent.
use legacy_vault.Base.{String, Bool, not, ◌&&◌, List, any, truthy?, ◌==◌, string_eq}
use legacy_vault.Domain.Enums.{ConsentPurpose, purpose_eq}
use legacy_vault.Domain.Entities.{Consent}

gives : ConsentPurpose → String → Consent → Bool
gives purpose policy_version consent =
    consent.purpose == purpose
    && (consent.policy_version == policy_version && not (truthy? consent.withdrawn_at))

unfoldable pub has_active_consent : List Consent → ConsentPurpose → String → Bool
unfolding gives
has_active_consent consents purpose policy_version = any (gives purpose policy_version) consents
