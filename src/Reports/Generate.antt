-- ===== src/Reports/Generate.antt =====
-- generateReport: a report's claims and versions, and when it can be made.
pub mod Provenance
pub mod Content
use legacy_vault.Base.{
  ℕ, String, Option, List, [], ◌∷◌, map, if◌then◌else◌, Result, ok, ◌>>=◌, ◌>>◌, ◌==◌, string_eq,
}
use legacy_vault.Domain.Enums.{ReportKind, RecordCategory}
use legacy_vault.Domain.Entities.{CandidateFact, Report, AnnualReviewFindings}
use legacy_vault.Domain.Errors.{DomainInvariantError}
use legacy_vault.Domain.Claims.{create_report_claims, assert_report_provenance}

-- Sets a property of an object: a new one comes last, an old one keeps its place.
unfoldable pub set_property : List (String × ℕ) → String → ℕ → List (String × ℕ)
set_property [] key value = (key, value) ∷ []
set_property ((k, v) ∷ object) key value =
    if k == key then (k, value) ∷ object else (k, v) ∷ set_property object key value

-- `Object.fromEntries` on top of an object.
unfoldable pub from_entries : List (String × ℕ) → List (String × ℕ) → List (String × ℕ)
unfolding set_property
from_entries object [] = object
from_entries object ((key, value) ∷ entries) = from_entries (set_property object key value) entries

pub record ReportInput (V : Type 0) : Type 0 where
  pub id : String
  pub organization_id : String
  pub household_id : String
  pub kind : ReportKind
  pub generated_at : String
  pub facts : List (CandidateFact V)
  pub missing_categories : Option (List RecordCategory)
  pub notices : Option (List String)
  pub review_findings : Option AnnualReviewFindings

module _ {V : Type 0} (as_text : V → Option String) (stringify : V → String) where
  abbrev pub report_of : ReportInput V → Report
  report_of input = record {
    id = input.id;
    organization_id = input.organization_id;
    household_id = input.household_id;
    version = 1;
    kind = input.kind;
    generated_at = input.generated_at;
    claims = create_report_claims as_text stringify input.facts;
    source_fact_versions = from_entries [] (map (λ fact. (fact.id, fact.version)) input.facts);
    missing_categories = input.missing_categories;
    notices = input.notices;
    review_findings = input.review_findings;
  }

  unfoldable pub generate_report : ReportInput V → Result DomainInvariantError Report
  generate_report input = do assert_report_provenance (report_of input); ok (report_of input)
