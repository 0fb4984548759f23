-- ===== src/Repository/Consents.antt =====
-- packages/database/src/repository.ts: recordConsent, withdrawConsent and getActiveConsent. A random id is
-- an argument, and so is the order of ids.
pub mod Withdrawn
use legacy_vault.Base.{
  ℕ, ◌+◌, String, Bool, true, false, not, ◌&&◌, ◌||◌, Option, none, some, List, [], ◌∷◌, ◌==◌, map,
  is_some, nat_eq, string_eq, ltb, if◌then◌else◌, Result, ok, ◌>>=◌, ok_or,
}
use legacy_vault.Repository.Transactions.{
  TenantContext, RepositoryError, Operation, unique_violation, consent_conflict,
}
use legacy_vault.Repository.Rows.{add_row, change_row}

pub record ConsentRow : Type 0 where
  pub id : String
  pub organization_id : String
  pub household_id : String
  pub person_id : String
  pub purpose : String
  pub policy_version : String
  pub granted_at : ℕ
  pub withdrawn_at : Option ℕ
  pub version : ℕ

pub record ConsentInput : Type 0 where
  pub person_id : String
  pub purpose : String
  pub policy_version : String
  pub granted_at : ℕ

abbrev pub consent_id : ConsentRow → String
consent_id row = row.id

-- The inserted row, with the columns' defaults.
abbrev pub consent_row : TenantContext → String → ConsentInput → ConsentRow
consent_row context id input = record {
  id = id;
  organization_id = context.organization_id;
  household_id = context.household_id;
  person_id = input.person_id;
  purpose = input.purpose;
  policy_version = input.policy_version;
  granted_at = input.granted_at;
  withdrawn_at = none;
  version = 1;
}

-- `returning id,version`
unfoldable pub record_consent :
    TenantContext → String → ConsentInput → Operation (List ConsentRow) (String × ℕ)
record_consent context id input =
    add_row consent_id (λ row. (row.id, row.version)) unique_violation
      (consent_row context id input)

abbrev pub may_withdraw : ℕ → ConsentRow → Bool
may_withdraw expected row = row.version == expected && not (is_some row.withdrawn_at)

abbrev pub withdrawn_row : ℕ → ConsentRow → ConsentRow
withdrawn_row at row = record row { withdrawn_at = some at; version = row.version + 1 }

-- `returning id,withdrawn_at,version`
unfoldable pub withdraw_consent :
    String → (expected at : ℕ) → Operation (List ConsentRow) (String × Option ℕ × ℕ)
withdraw_consent id expected at =
    change_row consent_id (λ row. (row.id, row.withdrawn_at, row.version)) consent_conflict id
      (may_withdraw expected) (withdrawn_row at)

module _ (id_below : String → String → Bool) where
  -- `order by granted_at desc,id desc limit 1`
  abbrev pub newer : ConsentRow → Option ConsentRow → ConsentRow
  newer row none = row
  newer row (some other) =
      if ltb row.granted_at other.granted_at
        || row.granted_at == other.granted_at && id_below row.id other.id
      then other
      else row

  unfoldable pub active_row : (person_id purpose : String) → List ConsentRow → Option ConsentRow
  active_row person_id purpose [] = none
  active_row person_id purpose (row ∷ rows) =
      let rest = active_row person_id purpose rows in
      if row.person_id == person_id && row.purpose == purpose && not (is_some row.withdrawn_at)
      then some (newer row rest)
      else rest

  -- The id, the version of the policy and the consent's version.
  abbrev pub get_active_consent :
      (person_id purpose : String) → List ConsentRow → Option (String × String × ℕ)
  get_active_consent person_id purpose rows = elim (active_row person_id purpose rows) [
    | none ↦ none
    | some row ↦ some (row.id, row.policy_version, row.version)
  ]
