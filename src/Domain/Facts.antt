-- ===== src/Domain/Facts.antt =====
-- packages/domain/src/facts.ts: the category of a fact, and how a fact is confirmed or rejected.
pub mod Lifecycle
pub mod Categories
use Prim.Native.Char.{code}
use legacy_vault.Base.{
  ℕ, ◌+◌, String, Bool, true, false, not, ◌&&◌, ◌||◌, Option, none, some, List, [], ◌∷◌, ◌==◌,
  if◌then◌else◌, truthy, nat_beq, is_nil, find, Result, ok, err, ◌>>◌, ◌>>=◌, throw_if, ok_or,
  nat_eq, string_eq,
}
use legacy_vault.Domain.Errors.{
  DomainInvariantError, no_canonical_category, not_confirmable, evidence_required,
  actor_and_time_required, dispute_workflow_required, version_conflict,
}
use legacy_vault.Domain.Enums.{
  RecordCategory, contacts, advisers, dependents, pets, assets, liabilities, insurance, property,
  estate_documents, medical_summary, digital_asset_locations, household_instructions,
  funeral_preferences, category_name, FactStatus, SourceType, manual,
}
use legacy_vault.Domain.Entities.{CandidateFact}

abbrev pub all_record_categories : List RecordCategory
all_record_categories =
    contacts ∷ advisers ∷ dependents ∷ pets ∷ assets ∷ liabilities ∷ insurance ∷ property
    ∷ estate_documents ∷ medical_summary ∷ digital_asset_locations ∷ household_instructions
    ∷ funeral_preferences ∷ []

-- `fieldKey.split(".", 1)[0]`
before_dot : String → String
before_dot String.[] = ""
before_dot (String.◌∷◌ c s) = if nat_beq (code c) b'.' then "" else String.◌∷◌ c (before_dot s)

-- The category whose text is the given one: `recordCategories.has(prefix)` and the cast.
category_of_name : String → Option RecordCategory
category_of_name name = find (λ c. category_name c == name) all_record_categories

pub record_category_from_field_key : String → Result DomainInvariantError RecordCategory
record_category_from_field_key field_key =
    let prefix = before_dot field_key in
    if truthy prefix
    then ok_or no_canonical_category (category_of_name prefix)
    else err no_canonical_category

abbrev pub is_confirmable : FactStatus → Bool
is_confirmable FactStatus.candidate = true
is_confirmable FactStatus.disputed = true
is_confirmable _ = false

abbrev pub is_confirmed : FactStatus → Bool
is_confirmed FactStatus.confirmed = true
is_confirmed _ = false

abbrev pub is_manual : SourceType → Bool
is_manual manual = true
is_manual _ = false

module _ {V : Type 0} where
  unfoldable pub confirm_fact :
      CandidateFact V → String → String → Result DomainInvariantError (CandidateFact V)
  confirm_fact fact actor_id confirmed_at = do
    throw_if (not (is_confirmable fact.status)) not_confirmable
    throw_if (is_nil fact.evidence_ids && not (is_manual fact.source_type)) evidence_required
    throw_if (not (truthy actor_id) || not (truthy confirmed_at)) actor_and_time_required
    ok (record fact {
      status = FactStatus.confirmed;
      confirmed_by = some actor_id;
      confirmed_at = some confirmed_at;
      version = fact.version + 1;
    })

  unfoldable pub reject_fact : CandidateFact V → Result DomainInvariantError (CandidateFact V)
  reject_fact fact = do
    throw_if (is_confirmed fact.status) dispute_workflow_required
    ok (record fact { status = FactStatus.rejected; version = fact.version + 1 })

unfoldable pub assert_optimistic_version :
    (actual expected : ℕ) → Result DomainInvariantError (Unit {0})
assert_optimistic_version actual expected = throw_if (not (actual == expected)) version_conflict
