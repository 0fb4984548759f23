-- ===== src/Domain/Permissions.antt =====
-- packages/domain/src/permissions.ts: what a role may do, and what grants add to it.
pub mod Grants
use legacy_vault.Base.{
  ℕ, String, Bool, true, false, not, ◌&&◌, ◌||◌, Option, none, some, List, [], ◌∷◌, if◌then◌else◌,
  truthy?, any, contains, Dates, lt?, le?,
}
use legacy_vault.Domain.Enums.{
  Role, owner, co_owner, editor, family_helper, professional_advisor, read_only_viewer,
  emergency_recipient, support_agent, platform_admin, PermissionAction, read, create, update,
  delete, export, approve, RecordCategory, action_eq, category_eq,
}
use legacy_vault.Domain.Entities.{PermissionGrant}

abbrev pub role_actions : Role → List PermissionAction
role_actions owner = read ∷ create ∷ update ∷ delete ∷ export ∷ approve ∷ []
role_actions co_owner = read ∷ create ∷ update ∷ delete ∷ export ∷ approve ∷ []
role_actions editor = read ∷ create ∷ update ∷ []
role_actions family_helper = read ∷ create ∷ update ∷ []
role_actions professional_advisor = read ∷ create ∷ update ∷ []
role_actions read_only_viewer = read ∷ []
role_actions emergency_recipient = read ∷ []
role_actions support_agent = read ∷ []
role_actions platform_admin = []

abbrev pub is_owner : Role → Bool
is_owner owner = true
is_owner co_owner = true
is_owner _ = false

module _ (dates : Dates) where
  -- `!expiresAt || Date.parse(expiresAt) > timestamp`
  abbrev pub not_expired : Option String → Option ℕ → Bool
  not_expired none at = true
  not_expired (some text) at = not (truthy? (some text)) || lt? at (dates.parse text)

  unfoldable pub is_grant_active : PermissionGrant → String → Bool
  is_grant_active grant at =
      let timestamp = dates.parse at in
      not (truthy? grant.revoked_at)
      && (le? (dates.parse grant.starts_at) timestamp && not_expired grant.expires_at timestamp)

  -- The test that `permits` makes of each grant.
  unfoldable pub covers : RecordCategory → PermissionAction → String → PermissionGrant → Bool
  covers category action at grant =
      is_grant_active grant at
      && (contains grant.categories category && contains grant.actions action)

  unfoldable pub permits :
      Role → List PermissionGrant → RecordCategory → PermissionAction → String → Bool
  permits role grants category action at =
      if not (contains (role_actions role) action)
      then false
      else (if is_owner role then true else any (covers category action at) grants)
