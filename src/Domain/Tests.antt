-- ===== src/Domain/Tests.antt =====
-- The rules of packages/domain at concrete inputs.
use legacy_vault.Base.{
  ℕ, ◌≡◌, ◌≤◌, ◌+◌, ◌*◌, ◌↔◌, ◌⊎◌, refl, true, none, some, [], ◌∷◌, ok, arith, string_eq, is_text,
  Any,
}
use legacy_vault.Samples.{sample_dates, noon, one_oclock, third_day, fourth_day, day_one, hour}
use legacy_vault.Domain.Enums
use legacy_vault.Domain.Enums.{
  Role, editor, co_owner, owner, read, update, contacts, assets, manual, past_due, requested,
  approved, delayed, released, revoked, active, trialing, action_eq,
}
use legacy_vault.Domain.Entities.{PermissionGrant, CandidateFact, EmergencyAccessRequest}
use legacy_vault.Domain.Billing.{BillingInput, grace, derive_billing_access}
use legacy_vault.Domain.Billing.Grace.{
  InGrace, mode_rank, derive_billing_access-grace_iff, derive_billing_access-antitone,
}
use legacy_vault.Domain.Facts.{confirm_fact, record_category_from_field_key}
use legacy_vault.Domain.Facts.Lifecycle.{
  MayConfirm, confirm_fact_iff, FactStep, FactReach, FactReach-history,
}
use legacy_vault.Domain.Facts.Categories.{BeginsWith, record_category_from_field_key_iff}
use legacy_vault.Domain.Permissions.{permits}
use legacy_vault.Domain.Permissions.Grants.{MayEver, Gives, permits_iff}
use legacy_vault.Domain.Emergency.{transition_emergency_access}
use legacy_vault.Domain.Emergency.Transitions.{
  Moves, DelayOver, EmergencyStep, EmergencyReach, Settled, transition_emergency_access_iff,
  EmergencyReach-history,
}

abbrev late : BillingInput
late = record {
  status = past_due;
  plan = some "essential";
  provider_updated_at = some noon;
  now = some third_day;
}

late_in_grace : (derive_billing_access sample_dates noon late).access ≡ grace
unfolding derive_billing_access is_text
late_in_grace = refl

derive_billing_access-grace_iff_example :
    ((derive_billing_access sample_dates noon late).access ≡ grace) ↔ InGrace sample_dates noon late
derive_billing_access-grace_iff_example = derive_billing_access-grace_iff sample_dates noon late

derive_billing_access-antitone_example :
    mode_rank
      (derive_billing_access sample_dates noon (record late { now = some fourth_day })).access
    ≤ mode_rank
        (derive_billing_access sample_dates noon (record late { now = some third_day })).access
derive_billing_access-antitone_example =
    derive_billing_access-antitone sample_dates noon late third_day fourth_day (day_one + 48 * hour)
      (day_one + 72 * hour) refl refl (omega arith)

abbrev pet_fact : CandidateFact ℕ
pet_fact = record {
  id = "f1";
  organization_id = "o";
  household_id = "h";
  version = 1;
  field_key = "pets.dog";
  typed_value = 7;
  status = Enums.FactStatus.candidate;
  source_type = manual;
  source_id = "s";
  evidence_ids = "e1" ∷ [];
  confidence = none;
  sensitivity = Enums.Sensitivity.standard;
  confirmed_by = none;
  confirmed_at = none;
  last_reviewed_at = none;
}

abbrev pet_confirmed : CandidateFact ℕ
pet_confirmed = record pet_fact {
  status = Enums.FactStatus.confirmed;
  confirmed_by = some "anna";
  confirmed_at = some noon;
  version = 2;
}

pet_confirms : confirm_fact pet_fact "anna" noon ≡ ok pet_confirmed
unfolding confirm_fact
pet_confirms = refl

confirm_fact_iff_example : (confirm_fact pet_fact "anna" noon ≡ ok pet_confirmed) ↔ (
    MayConfirm pet_fact "anna" noon
    × (pet_confirmed ≡ record pet_fact {
      status = Enums.FactStatus.confirmed;
      confirmed_by = some "anna";
      confirmed_at = some noon;
      version = pet_fact.version + 1;
    }))
confirm_fact_iff_example = confirm_fact_iff pet_fact pet_confirmed "anna" noon

pet_reach : FactReach pet_fact pet_confirmed 1
pet_reach = FactReach.next FactReach.here (FactStep.confirm "anna" noon pet_confirms)

FactReach-history_example :
    (pet_confirmed.version ≡ pet_fact.version + 1)
    × (pet_fact.status ≡ Enums.FactStatus.rejected
        → pet_confirmed.status ≡ Enums.FactStatus.rejected)
    × (pet_fact.status ≡ Enums.FactStatus.confirmed
        → (pet_confirmed ≡ pet_fact) × (◌≡◌ {A = ℕ} 1 0))
FactReach-history_example = FactReach-history pet_reach

record_category_from_field_key_iff_example :
    (record_category_from_field_key "assets.home" ≡ ok assets) ↔ BeginsWith "assets.home" assets
record_category_from_field_key_iff_example = record_category_from_field_key_iff "assets.home" assets

abbrev contact_grant : PermissionGrant
contact_grant = record {
  id = "g";
  organization_id = "o";
  household_id = "h";
  version = 1;
  membership_id = "m";
  categories = contacts ∷ [];
  actions = read ∷ update ∷ [];
  purpose = "vault.facts.read";
  starts_at = noon;
  expires_at = some third_day;
  revoked_at = none;
}

permits_iff_example :
    (permits sample_dates editor (contact_grant ∷ []) contacts read one_oclock ≡ true) ↔ (
      MayEver editor read
      × ((editor ≡ owner)
          ⊎ (editor ≡ co_owner)
          ⊎ Any (Gives sample_dates contacts read one_oclock) (contact_grant ∷ [])))
permits_iff_example = permits_iff sample_dates editor (contact_grant ∷ []) contacts read one_oclock

abbrev request : EmergencyAccessRequest
request = record {
  id = "r";
  organization_id = "o";
  household_id = "h";
  version = 1;
  requester_id = "p";
  recipient_membership_id = "m";
  categories = contacts ∷ [];
  reason = "hospital";
  status = delayed;
  requested_at = noon;
  decision_at = none;
  release_after = some third_day;
  denied_reason = none;
}

abbrev opened : EmergencyAccessRequest
opened = record request { status = released; decision_at = some fourth_day; version = 2 }

request_opens : transition_emergency_access sample_dates request released fourth_day ≡ ok opened
unfolding transition_emergency_access
request_opens = refl

transition_emergency_access_iff_example :
    (transition_emergency_access sample_dates request released fourth_day ≡ ok opened) ↔ (
      Moves delayed released
      × (released ≡ released → DelayOver sample_dates request.release_after fourth_day)
      × (opened ≡ record request {
        status = released;
        decision_at = some fourth_day;
        version = request.version + 1;
      }))
transition_emergency_access_iff_example =
    transition_emergency_access_iff sample_dates request opened released fourth_day

request_step : EmergencyStep sample_dates request opened
request_step = EmergencyStep.move released fourth_day request_opens

EmergencyReach-history_example :
    (opened.version ≡ request.version + 1)
    × (opened.categories ≡ request.categories)
    × (opened.recipient_membership_id ≡ request.recipient_membership_id)
    × (opened.release_after ≡ request.release_after)
    × Settled request.status opened.status
EmergencyReach-history_example =
    EmergencyReach-history (EmergencyReach.next EmergencyReach.here request_step)
