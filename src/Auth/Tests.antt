-- ===== src/Auth/Tests.antt =====
-- authorize at concrete requests.
use legacy_vault.Base.{◌≡◌, ◌↔◌, refl, none, some, [], ◌∷◌, true, trim, is_space}
use legacy_vault.Samples.{sample_dates, noon, ten_past, one_oclock}
use legacy_vault.Domain.Enums.{support_agent, contacts, read, update}
use legacy_vault.Domain.Entities.{PermissionGrant}
use legacy_vault.Auth.Policy.{
  SupportAccessApproval, AuthorizationRequest, authorize, allow, is_stale, is_approved, approves,
  parse?,
}
use legacy_vault.Auth.Policy.Allowed.{IsAuthorized, authorize_iff}
use legacy_vault.Auth.Policy.Support.{SupportChecked, authorize_support}
use legacy_vault.Domain.Permissions.{permits, covers, is_grant_active}

abbrev grant : PermissionGrant
grant = record {
  id = "g";
  organization_id = "o";
  household_id = "h";
  version = 1;
  membership_id = "m";
  categories = contacts ∷ [];
  actions = read ∷ update ∷ [];
  purpose = "vault.facts.read";
  starts_at = noon;
  expires_at = none;
  revoked_at = none;
}

abbrev approval : SupportAccessApproval
approval = record {
  approved_by_owner_id = "owner";
  reason_code = "ticket 7";
  categories = contacts ∷ [];
  starts_at = noon;
  expires_at = one_oclock;
  revoked_at = none;
}

abbrev support_request : AuthorizationRequest
support_request = record {
  role = support_agent;
  grants = grant ∷ [];
  category = contacts;
  action = read;
  purpose = "vault.facts.read";
  now = ten_past;
  session_issued_at = noon;
  mfa_verified_at = some noon;
  support_approvals = some (approval ∷ []);
  emergency_release_categories = none;
}

support_is_allowed : (authorize sample_dates support_request).allowed ≡ true
unfolding authorize trim is_space is_stale parse? is_approved approves permits covers
    is_grant_active
support_is_allowed = refl

authorize_iff_example :
    (((authorize sample_dates support_request).allowed ≡ true)
      ↔ IsAuthorized sample_dates support_request)
    × (((authorize sample_dates support_request).reason ≡ allow)
        ↔ IsAuthorized sample_dates support_request)
authorize_iff_example = authorize_iff sample_dates support_request

authorize_support_example :
    SupportChecked sample_dates support_request (sample_dates.parse ten_past)
authorize_support_example = authorize_support sample_dates support_request refl support_is_allowed
