-- ===== src/Auth/Policy.antt =====
-- packages/auth/src/policy.ts: authorize. A time that the source parses is an instant or none (NaN).
pub mod Allowed
pub mod Support
use legacy_vault.Base.{
  ℕ, ◌+◌, ◌-◌, ◌*◌, String, Bool, true, false, not, ◌&&◌, ◌||◌, Option, none, some, List, [], ◌∷◌,
  if◌then◌else◌, truthy, truthy?, trim, ltb, leb, any, filter, contains, Dates, ◌==◌, string_eq,
  Result, ok, err,
}
use legacy_vault.Domain.Enums.{
  Role, owner, co_owner, support_agent, platform_admin, emergency_recipient, RecordCategory,
  PermissionAction, create, role_eq, category_eq, action_eq,
}
use legacy_vault.Domain.Entities.{PermissionGrant}
use legacy_vault.Domain.Permissions.{permits}

pub record SupportAccessApproval : Type 0 where
  pub approved_by_owner_id : String
  pub reason_code : String
  pub categories : List RecordCategory
  pub starts_at : String
  pub expires_at : String
  pub revoked_at : Option String

pub record AuthorizationRequest : Type 0 where
  pub role : Role
  pub grants : List PermissionGrant
  pub category : RecordCategory
  pub action : PermissionAction
  pub purpose : String
  pub now : String
  pub session_issued_at : String
  pub mfa_verified_at : Option String
  pub support_approvals : Option (List SupportAccessApproval)
  pub emergency_release_categories : Option (List RecordCategory)

pub data Reason : Type 0 where
  allow invalid_purpose session_expired mfa_required permission_denied : Reason
  support_approval_required emergency_release_required : Reason

pub record AuthorizationDecision : Type 0 where
  pub allowed : Bool
  pub reason : Reason

abbrev pub mfa_roles : List Role
mfa_roles = owner ∷ co_owner ∷ support_agent ∷ platform_admin ∷ []

abbrev pub staff_roles : List Role
staff_roles = support_agent ∷ platform_admin ∷ []

abbrev pub deny : Reason → AuthorizationDecision
deny reason = record { allowed = false; reason = reason }

abbrev pub allowed_decision : AuthorizationDecision
allowed_decision = record { allowed = true; reason = allow }

abbrev pub maximum_session_age_ms : Role → ℕ
maximum_session_age_ms role =
    if contains staff_roles role then 15 * 60 * 1_000 else 7 * 24 * 60 * 60 * 1_000

-- An instant that is missing, lies after `now`, or lies more than `age` before it.
unfoldable pub is_stale : Option ℕ → Option ℕ → ℕ → Bool
is_stale none _ age = true
is_stale (some now) none age = true
is_stale (some now) (some t) age = ltb now t || ltb age (now - t)

-- The approval's window: `startsAt <= now && expiresAt > now && expiresAt - startsAt <= 4 hours`
abbrev pub in_window : Option ℕ → Option ℕ → Option ℕ → Bool
in_window (some starts) (some expires) (some now) =
    leb starts now && (ltb now expires && leb (expires - starts) (4 * 60 * 60 * 1_000))
in_window _ _ _ = false

module _ (dates : Dates) where
  unfoldable pub parse? : Option String → Option ℕ
  parse? none = none
  parse? (some text) = if truthy text then dates.parse text else none

  -- The test that `authorize` makes of each support approval.
  unfoldable pub approves : AuthorizationRequest → SupportAccessApproval → Bool
  approves request approval =
      not (truthy? approval.revoked_at)
      && (truthy (trim approval.reason_code)
          && (contains approval.categories request.category
              && in_window (dates.parse approval.starts_at) (dates.parse approval.expires_at)
                  (dates.parse request.now)))

  unfoldable pub is_approved : AuthorizationRequest → Option (List SupportAccessApproval) → Bool
  is_approved request none = false
  is_approved request (some approvals) = any (approves request) approvals

  unfoldable pub is_covered : RecordCategory → Option (List RecordCategory) → Bool
  is_covered category none = false
  is_covered category (some categories) = contains categories category

  -- The grants that count: those with the request's purpose.
  abbrev pub purpose_grants : AuthorizationRequest → List PermissionGrant
  purpose_grants request = filter (λ grant. grant.purpose == request.purpose) request.grants

  unfoldable pub authorize : AuthorizationRequest → AuthorizationDecision
  authorize request =
      if not (truthy (trim request.purpose))
      then deny invalid_purpose
      else (if is_stale (dates.parse request.now) (dates.parse request.session_issued_at)
            (maximum_session_age_ms request.role)
          then deny session_expired
          else (if contains mfa_roles request.role
                && is_stale (dates.parse request.now) (parse? request.mfa_verified_at)
                    (12 * 60 * 60 * 1_000)
              then deny mfa_required
              else (if request.role == platform_admin
                  then deny permission_denied
                  else (if request.role == support_agent
                        && not (is_approved request request.support_approvals)
                      then deny support_approval_required
                      else (if request.role == emergency_recipient
                            && (request.purpose == "vault.emergency-access.request"
                                && request.action == create)
                          then allowed_decision
                          else (if request.role == emergency_recipient
                                && not (
                                    is_covered request.category
                                      request.emergency_release_categories)
                              then deny emergency_release_required
                              else (if permits dates request.role (purpose_grants request)
                                    request.category request.action request.now
                                  then allowed_decision
                                  else deny permission_denied)))))))

  -- `err` is the AuthorizationDeniedError with its reason.
  pub require_authorization : AuthorizationRequest → Result Reason (Unit {0})
  require_authorization request =
      let decision = authorize request in
      if not decision.allowed then err decision.reason else ok tt
