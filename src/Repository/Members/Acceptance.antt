-- ===== src/Repository/Members/Acceptance.antt =====
-- packages/database/src/repository.ts: how an account takes up an invitation. The household is the one
-- of the invitation; the idempotency records are those of the account.
use legacy_vault.Base.{
  ℕ, ◌+◌, String, Bool, true, not, ◌&&◌, ◌||◌, Option, none, some, ◌==◌, leb, ltb, any, find,
  is_some, is_text, nat_eq, string_eq, ok, ◌>>=◌, ◌>>◌, ok_or, throw_if, if◌then◌else◌,
}
use legacy_vault.Domain.Enums.{Role}
use legacy_vault.Repository.Transactions.{
  AccountContext, Operation, unique_violation, invitation_version_conflict, invitation_unavailable,
  idempotency_conflict, still_processing,
}
use legacy_vault.Repository.Rows.{find_row, insert_row, update_row}
use legacy_vault.Repository.Facts.{Ciphertext}
use legacy_vault.Repository.Idempotency.{idempotent}
use legacy_vault.Repository.Members.{
  Invitation, Membership, Person, Household, Response, joined, Tables, invitation_id, membership_id,
  person_id, is_pending,
}

pub record AcceptanceContext : Type 0 where
  pub id : String
  pub organization_id : String
  pub household_id : String
  pub role : Role
  pub version : ℕ
  pub expires_at : ℕ

abbrev accepted_by_account : AccountContext → Invitation → Bool
accepted_by_account context i = is_some i.accepted_at && is_text i.accepted_by context.auth_user_id

unfoldable pub get_membership_invitation_for_acceptance :
    AccountContext
    → (token_hash email_hash : String) → (now : ℕ) → Operation Household (Option AcceptanceContext)
get_membership_invitation_for_acceptance context token_hash email_hash now h =
    elim (find (λ i. i.token_hash == token_hash) h.invitations) [
      | none ↦ ok (none, h)
      | some i ↦
          if not (i.email_hash == email_hash)
            || (is_some i.revoked_at
                || (not (accepted_by_account context i)
                    && (is_some i.accepted_at || leb i.expires_at now)))
          then ok (none, h)
          else ok (
            some (record {
              id = i.id;
              organization_id = h.organization_id;
              household_id = h.id;
              role = i.role;
              version = i.version;
              expires_at = i.expires_at;
            }),
            h,
          )
    ]

pub record AcceptanceInput : Type 0 where
  pub idempotency_key : String
  pub token_hash : String
  pub email_hash : String
  pub expected_invitation_version : ℕ
  pub person_id : String
  pub membership_id : String
  pub display_name : Ciphertext
  pub accepted_at : ℕ

-- The two checks of a row, by its token and once more when it is locked.
abbrev pub is_open : AcceptanceInput → Invitation → Bool
is_open input i =
    i.email_hash == input.email_hash && (is_pending i && ltb input.accepted_at i.expires_at)

abbrev pub new_person : AcceptanceInput → Person
new_person input = record { id = input.person_id; display_name = input.display_name }

abbrev pub new_membership : AccountContext → AcceptanceInput → Role → Membership
new_membership context input role = record {
  id = input.membership_id;
  person_id = input.person_id;
  role = role;
  active = true;
  auth_user_id = some context.auth_user_id;
  version = 1;
}

abbrev pub may_accept : ℕ → Invitation → Bool
may_accept expected i = i.version == expected && is_pending i

abbrev pub accepted_invitation : AccountContext → ℕ → Invitation → Invitation
accepted_invitation context at i = record i {
  accepted_at = some at;
  accepted_by = some context.auth_user_id;
  version = i.version + 1;
}

-- One account has one membership of a household.
unfoldable pub accept : AccountContext → AcceptanceInput → Operation Household Response
accept context input h = do
  visible ←
      ok_or invitation_unavailable (find (λ i. i.token_hash == input.token_hash) h.invitations)
  throw_if (not (is_open input visible)) invitation_unavailable
  locked ← ok_or invitation_unavailable (find_row invitation_id visible.id h.invitations)
  throw_if (not (is_open input locked)) invitation_unavailable
  throw_if (not (locked.version == input.expected_invitation_version)) invitation_version_conflict
  people ← ok_or unique_violation (insert_row person_id (new_person input) h.people)
  throw_if (any (λ m. is_text m.auth_user_id context.auth_user_id) h.memberships) unique_violation
  memberships ←
      ok_or unique_violation
        (insert_row membership_id (new_membership context input locked.role) h.memberships)
  (i, invitations) ← ok_or invitation_version_conflict (
      update_row invitation_id locked.id (may_accept input.expected_invitation_version)
        (accepted_invitation context input.accepted_at) h.invitations)
  ok (
    joined h.id h.name (h.version + 1) input.membership_id locked.role 1,
    record h {
      version = h.version + 1;
      invitations = invitations;
      memberships = memberships;
      people = people;
    },
  )

unfoldable pub accept_membership_invitation :
    AccountContext → String → AcceptanceInput → Operation Tables Response
accept_membership_invitation context hash input = idempotent (record {
  idempotency_key = input.idempotency_key;
  request_hash = hash;
  status_code = none;
  conflict = idempotency_conflict;
  processing = still_processing;
  operation = accept context input;
})
