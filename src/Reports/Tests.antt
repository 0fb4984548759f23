-- ===== src/Reports/Tests.antt =====
-- generateReport at concrete facts.
use legacy_vault.Base.{
  ◌≡◌, ◌≢◌, ◌↔◌, refl, String, Option, none, some, List, [], ◌∷◌, ok, err, All, here,
}
use legacy_vault.Samples.{noon}
use legacy_vault.Domain.Enums
use legacy_vault.Domain.Enums.{manual, FactStatus}
use legacy_vault.Domain.Entities.{CandidateFact, Report}
use legacy_vault.Domain.Errors.{claim_evidence_required}
use legacy_vault.Domain.Facts.{confirm_fact}
use legacy_vault.Reports.Generate.{ReportInput, generate_report}
use legacy_vault.Reports.Generate.Content.{IsReportOn}
use legacy_vault.Reports.Generate.Provenance.{
  generate_report_iff, generate_report_confirmed_without_evidence,
}

abbrev bare_fact : CandidateFact String
bare_fact = record {
  id = "f";
  organization_id = "o";
  household_id = "h";
  version = 1;
  field_key = "pets.dog";
  typed_value = "Rex";
  status = FactStatus.candidate;
  source_type = manual;
  source_id = "s";
  evidence_ids = [];
  confidence = none;
  sensitivity = Enums.Sensitivity.standard;
  confirmed_by = none;
  confirmed_at = none;
  last_reviewed_at = none;
}

abbrev bare_confirmed : CandidateFact String
bare_confirmed = record bare_fact {
  status = FactStatus.confirmed;
  confirmed_by = some "anna";
  confirmed_at = some noon;
  version = 2;
}

bare_confirms : confirm_fact bare_fact "anna" noon ≡ ok bare_confirmed
unfolding confirm_fact
bare_confirms = refl

abbrev report_on : List (CandidateFact String) → ReportInput String
report_on facts = record {
  id = "r";
  organization_id = "o";
  household_id = "h";
  kind = Enums.ReportKind.life_inventory;
  generated_at = noon;
  facts = facts;
  missing_categories = none;
  notices = none;
  review_findings = none;
}

abbrev as_text : String → Option String
as_text = some

abbrev stringify : String → String
stringify s = s

generate_report_iff_example :
    (((r : Report) × (generate_report as_text stringify (report_on (bare_fact ∷ [])) ≡ ok r))
      ↔ All (λ f. f.status ≡ FactStatus.confirmed → f.evidence_ids ≢ []) (bare_fact ∷ []))
    × ((r : Report)
        → generate_report as_text stringify (report_on (bare_fact ∷ [])) ≡ ok r
        → IsReportOn as_text stringify (report_on (bare_fact ∷ [])) r)
generate_report_iff_example = generate_report_iff as_text stringify (report_on (bare_fact ∷ []))

generate_report_confirmed_without_evidence_example :
    generate_report as_text stringify (report_on (bare_confirmed ∷ []))
    ≡ err claim_evidence_required
generate_report_confirmed_without_evidence_example =
    generate_report_confirmed_without_evidence as_text stringify (report_on (bare_confirmed ∷ []))
      bare_fact bare_confirmed "anna" noon bare_confirms refl (here refl)
