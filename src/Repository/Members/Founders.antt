-- ===== src/Repository/Members/Founders.antt =====
-- Who owns a household that an account has created.
use legacy_vault.Base.{
  ◌≡◌, String, false, none, some, List, [], ◌∷◌, ok, Option-cases, inl, inr, arith, filter, ◌==◌,
  string_eq, if◌then◌else◌,
}
use legacy_vault.Repository.Transactions.{AccountContext}
use legacy_vault.Repository.Rows.{insert_row, find_row}
use legacy_vault.Repository.Rows.Lookup.{insert_row-view}
use legacy_vault.Repository.Idempotency.{IdempotencyRecord}
use legacy_vault.Repository.Members.{Response}
use legacy_vault.Repository.Members.Owners.{is_owner}
use legacy_vault.Repository.Members.History.{MembersCall, run_calls, run_calls-Keeps}
use legacy_vault.Repository.Members.Onboarding.{
  Directory, OnboardingInput, Onboarded, household_id, membership_taken, first_membership,
  new_household, onboard,
}

onboard-household :
    (context : AccountContext) (input : OnboardingInput) (d e : Directory) (a : Onboarded)
    → onboard context input d ≡ ok (a, e)
    → insert_row household_id (new_household context input) d.households ≡ some e.households
unfolding onboard
onboard-household context input d e a h =
    elim (Option-cases (insert_row household_id (new_household context input) d.households)) [
      | inl n ↦ ground arith
      | inr (rows, n) ↦ ground arith
    ]

onboard-member :
    (context : AccountContext) (input : OnboardingInput) (d e : Directory) (a : Onboarded)
    → onboard context input d ≡ ok (a, e)
    → membership_taken input.membership_id d.households ≡ false
unfolding onboard
onboard-member context input d e a h = ground arith

-- A household that an account creates was not there before and is the only one that is new; its
-- membership's id was no member's of any household. However members of it are then invited, accept,
-- lose their invitations and change roles, its owners are that account's membership alone.
pub onboard-owner :
    (context : AccountContext) (input : OnboardingInput) (d e : Directory) (a : Onboarded)
    (records : List (IdempotencyRecord Response)) (calls : List MembersCall)
    → onboard context input d ≡ ok (a, e)
    → (find_row household_id input.household_id d.households ≡ none)
      × ((k : String)
          → find_row household_id k e.households ≡ (
              if input.household_id == k
              then some (new_household context input)
              else find_row household_id k d.households))
      × (membership_taken input.membership_id d.households ≡ false)
      × (filter is_owner (run_calls calls (records, new_household context input)).1.memberships
          ≡ first_membership context input ∷ [])
onboard-owner context input d e a records calls h =
    let (free, view) =
      insert_row-view household_id (new_household context input) d.households e.households
        (onboard-household context input d e a h) in
    (
      free,
      view,
      onboard-member context input d e a h,
      (run_calls-Keeps calls (records, new_household context input) tt).owners,
    )
