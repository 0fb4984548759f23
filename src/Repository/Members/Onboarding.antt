-- ===== src/Repository/Members/Onboarding.antt =====
-- packages/database/src/repository.ts: createHouseholdForAccount. The account's idempotency records stand
-- beside the organizations, households and household keys; an id is taken in its own table,
-- those of people and memberships in all households.
use legacy_vault.Base.{
  ℕ, String, true, none, some, List, [], ◌∷◌, ok, ◌>>=◌, ok_or, string_eq, Bool, any, ◌==◌,
  throw_if, ◌>>◌,
}
use legacy_vault.Domain.Enums.{Role, owner}
use legacy_vault.Repository.Transactions.{
  AccountContext, Operation, unique_violation, idempotency_conflict, still_processing,
}
use legacy_vault.Repository.Rows.{insert_row}
use legacy_vault.Repository.Facts.{Ciphertext}
use legacy_vault.Repository.Idempotency.{IdempotencyRecord, idempotent}
use legacy_vault.Repository.Members.{Household, Membership}

pub record Organization : Type 0 where
  pub id : String
  pub name : String

pub record HouseholdKey : Type 0 where
  pub id : String
  pub household_id : String
  pub key_version : ℕ
  pub wrapped_key : String

pub record Directory : Type 0 where
  pub organizations : List Organization
  pub households : List Household
  pub household_keys : List HouseholdKey

pub record OnboardingInput : Type 0 where
  pub idempotency_key : String
  pub organization_id : String
  pub organization_name : String
  pub household_id : String
  pub household_name : String
  pub person_id : String
  pub membership_id : String
  pub display_name : Ciphertext
  pub household_key_id : String
  pub wrapped_household_key : String

pub record Onboarded : Type 0 where
  pub household_id : String
  pub household_name : String
  pub household_version : ℕ
  pub membership_id : String
  pub role : Role
  pub membership_version : ℕ

abbrev organization_id : Organization → String
organization_id row = row.id

abbrev pub household_id : Household → String
household_id row = row.id

abbrev household_key_id : HouseholdKey → String
household_key_id row = row.id

abbrev pub first_membership : AccountContext → OnboardingInput → Membership
first_membership context input = record {
  id = input.membership_id;
  person_id = input.person_id;
  role = owner;
  active = true;
  auth_user_id = some context.auth_user_id;
  version = 1;
}

-- The household with its first person and membership.
abbrev pub new_household : AccountContext → OnboardingInput → Household
new_household context input = record {
  id = input.household_id;
  organization_id = input.organization_id;
  name = input.household_name;
  version = 1;
  invitations = [];
  memberships = first_membership context input ∷ [];
  people = record { id = input.person_id; display_name = input.display_name } ∷ [];
}

-- The key has the version of the name's ciphertext.
abbrev new_household_key : OnboardingInput → HouseholdKey
new_household_key input = record {
  id = input.household_key_id;
  household_id = input.household_id;
  key_version = input.display_name.key_version;
  wrapped_key = input.wrapped_household_key;
}

-- Whether a person, or a membership, of some household has the id.
abbrev pub person_taken : String → List Household → Bool
person_taken id = any (λ h. any (λ p. p.id == id) h.people)

abbrev pub membership_taken : String → List Household → Bool
membership_taken id = any (λ h. any (λ m. m.id == id) h.memberships)

unfoldable pub onboard : AccountContext → OnboardingInput → Operation Directory Onboarded
onboard context input d = do
  organizations ← ok_or unique_violation (
      insert_row organization_id
        (record { id = input.organization_id; name = input.organization_name }) d.organizations)
  households ←
      ok_or unique_violation (insert_row household_id (new_household context input) d.households)
  keys ←
      ok_or unique_violation
        (insert_row household_key_id (new_household_key input) d.household_keys)
  throw_if (person_taken input.person_id d.households) unique_violation
  throw_if (membership_taken input.membership_id d.households) unique_violation
  ok (
    record {
      household_id = input.household_id;
      household_name = input.household_name;
      household_version = 1;
      membership_id = input.membership_id;
      role = owner;
      membership_version = 1;
    },
    record { organizations = organizations; households = households; household_keys = keys },
  )

unfoldable pub create_household_for_account :
    AccountContext
    → String
    → OnboardingInput
    → Operation (List (IdempotencyRecord Onboarded) × Directory) Onboarded
create_household_for_account context hash input = idempotent (record {
  idempotency_key = input.idempotency_key;
  request_hash = hash;
  status_code = none;
  conflict = idempotency_conflict;
  processing = still_processing;
  operation = onboard context input;
})
