-- ===== src/Repository/Members.antt =====
-- packages/database/src/repository.ts: invitations and memberships of one household. A time is an instant,
-- also in a response; the household itself is there, so the errors for a missing one do not arise. The
-- hash of a request (SHA-256 of its JSON text) is an argument, so that the shapes of requests are not
-- spelled out.
pub mod Acceptance
pub mod Joins
pub mod Owners
pub mod History
pub mod Onboarding
pub mod Founders
use legacy_vault.Base.{
  ℕ, ◌+◌, String, Bool, true, false, not, ◌&&◌, ◌||◌, Option, none, some, List, [], ◌∷◌, ◌==◌, leb,
  ltb, any, find, contains, is_some, is_text, nat_eq, string_eq, Result, ok, ◌>>=◌, ◌>>◌, ok_or,
  throw_if, if◌then◌else◌,
}
use legacy_vault.Domain.Enums.{
  Role, owner, co_owner, editor, family_helper, professional_advisor, read_only_viewer,
  emergency_recipient, role_eq,
}
use legacy_vault.Repository.Transactions.{
  TenantContext, AccountContext, Operation, unique_violation, role_not_assignable,
  invitation_conflict, invitation_version_conflict, invitation_unavailable, revocation_conflict,
  role_update_conflict, idempotency_conflict, still_processing,
}
use legacy_vault.Repository.Rows.{find_row, insert_row, update_row}
use legacy_vault.Repository.Facts.{Ciphertext}
use legacy_vault.Repository.Idempotency.{IdempotencyRecord, Request, idempotent}

abbrev pub assignable_household_roles : List Role
assignable_household_roles =
    co_owner ∷ editor ∷ family_helper ∷ professional_advisor ∷ read_only_viewer
    ∷ emergency_recipient ∷ []

abbrev pub is_assignable : Role → Bool
is_assignable role = contains assignable_household_roles role

pub record Invitation : Type 0 where
  pub id : String
  pub email_hash : String
  pub token_hash : String
  pub role : Role
  pub invited_by : String
  pub expires_at : ℕ
  pub accepted_at : Option ℕ
  pub accepted_by : Option String
  pub revoked_at : Option ℕ
  pub version : ℕ

pub record Membership : Type 0 where
  pub id : String
  pub person_id : String
  pub role : Role
  pub active : Bool
  pub auth_user_id : Option String
  pub version : ℕ

pub record Person : Type 0 where
  pub id : String
  pub display_name : Ciphertext

pub record Household : Type 0 where
  pub id : String
  pub organization_id : String
  pub name : String
  pub version : ℕ
  pub invitations : List Invitation
  pub memberships : List Membership
  pub people : List Person

-- The responses, as the records of idempotency keys hold them.
pub data Response : Type 0 where
  invited : (id : String) (role : Role) (expires_at version household_version : ℕ) → Response
  revoked : (id : String) (version household_version : ℕ) → Response
  role_updated : (id : String) (role : Role) (version household_version : ℕ) → Response
  joined :
      (household_id name : String) (household_version : ℕ) (membership_id : String) (role : Role)
      (version : ℕ)
      → Response

abbrev pub Tables : Type 0
Tables = List (IdempotencyRecord Response) × Household

abbrev pub invitation_id : Invitation → String
invitation_id row = row.id

abbrev pub membership_id : Membership → String
membership_id row = row.id

abbrev pub person_id : Person → String
person_id row = row.id

pub record InvitationInput : Type 0 where
  pub idempotency_key : String
  pub expected_household_version : ℕ
  pub invitation_id : String
  pub email_hash : String
  pub token_hash : String
  pub role : Role
  pub invited_by : String
  pub expires_at : ℕ

abbrev pub new_invitation : InvitationInput → Invitation
new_invitation input = record {
  id = input.invitation_id;
  email_hash = input.email_hash;
  token_hash = input.token_hash;
  role = input.role;
  invited_by = input.invited_by;
  expires_at = input.expires_at;
  accepted_at = none;
  accepted_by = none;
  revoked_at = none;
  version = 1;
}

abbrev pub is_pending : Invitation → Bool
is_pending i = not (is_some i.accepted_at) && not (is_some i.revoked_at)

-- Unique are the id, the token's hash, and the address among the pending invitations.
unfoldable pub invite : InvitationInput → Operation Household Response
invite input h = do
  throw_if (not (h.version == input.expected_household_version)) invitation_version_conflict
  throw_if (any (λ i. i.token_hash == input.token_hash) h.invitations) invitation_conflict
  throw_if (any (λ i. i.email_hash == input.email_hash && is_pending i) h.invitations)
      invitation_conflict
  invitations ←
      ok_or invitation_conflict (insert_row invitation_id (new_invitation input) h.invitations)
  ok (
    invited input.invitation_id input.role input.expires_at 1 (h.version + 1),
    record h { version = h.version + 1; invitations = invitations },
  )

unfoldable pub create_membership_invitation : String → InvitationInput → Operation Tables Response
create_membership_invitation hash input tables = do
  throw_if (not (is_assignable input.role)) role_not_assignable
  idempotent
      (record {
        idempotency_key = input.idempotency_key;
        request_hash = hash;
        status_code = some 201;
        conflict = idempotency_conflict;
        processing = still_processing;
        operation = invite input;
      })
      tables

abbrev pub may_revoke : ℕ → Invitation → Bool
may_revoke expected i = i.version == expected && is_pending i

abbrev pub revoked_invitation : ℕ → Invitation → Invitation
revoked_invitation at i = record i { revoked_at = some at; version = i.version + 1 }

unfoldable pub revoke : String → (expected at : ℕ) → Operation Household Response
revoke id expected at h = do
  (i, invitations) ←
      ok_or revocation_conflict
        (update_row invitation_id id (may_revoke expected) (revoked_invitation at) h.invitations)
  ok (
    revoked i.id i.version (h.version + 1),
    record h { version = h.version + 1; invitations = invitations },
  )

unfoldable pub revoke_membership_invitation :
    (key hash id : String) → (expected at : ℕ) → Operation Tables Response
revoke_membership_invitation key hash id expected at = idempotent (record {
  idempotency_key = key;
  request_hash = hash;
  status_code = some 200;
  conflict = idempotency_conflict;
  processing = still_processing;
  operation = revoke id expected at;
})

abbrev pub may_update_role : ℕ → Membership → Bool
may_update_role expected m = m.version == expected && (m.active && not (m.role == owner))

abbrev pub with_role : Role → Membership → Membership
with_role role m = record m { role = role; version = m.version + 1 }

unfoldable pub change_role : String → Role → ℕ → Operation Household Response
change_role id role expected h = do
  (m, memberships) ←
      ok_or role_update_conflict
        (update_row membership_id id (may_update_role expected) (with_role role) h.memberships)
  ok (
    role_updated m.id m.role m.version (h.version + 1),
    record h { version = h.version + 1; memberships = memberships },
  )

unfoldable pub update_membership_role :
    (key hash id : String) → Role → (expected : ℕ) → Operation Tables Response
update_membership_role key hash id role expected tables = do
  throw_if (not (is_assignable role)) role_not_assignable
  idempotent
      (record {
        idempotency_key = key;
        request_hash = hash;
        status_code = some 200;
        conflict = idempotency_conflict;
        processing = still_processing;
        operation = change_role id role expected;
      })
      tables
