-- ===== src/Reports/Generate/Content.antt =====
-- What stands in a report: its claims beside the facts, and the facts' versions.
use legacy_vault.Base.{
  ℕ, ◌≡◌, ◌≢◌, ◌↔◌, refl, String, Option, none, some, List, [], ◌∷◌, map, arith, if◌then◌else◌,
  ◌==◌, string_eq,
}
use legacy_vault.Domain.Enums.{FactStatus, ClaimStatus}
use legacy_vault.Domain.Entities.{CandidateFact, Report, ReportClaim}
use legacy_vault.Domain.Claims.{create_report_claims}
use legacy_vault.Reports.Generate.{ReportInput, set_property, from_entries, report_of}

-- What a claim says of a fact: a confirmed one with its value, as a text or as JSON; any other without.
pub record IsClaimOf {V : Type 0} (as_text : V → Option String) (stringify : V → String)
    (f : CandidateFact V) (c : ReportClaim) : Type 0 where
  pub fact : c.fact_id ≡ f.id
  pub evidence : c.evidence_ids ≡ f.evidence_ids
  pub field : c.field_key ≡ f.field_key
  pub confirmed : (f.status ≡ FactStatus.confirmed) ↔ (c.status ≡ ClaimStatus.confirmed)
  pub disputed : (f.status ≡ FactStatus.disputed) ↔ (c.status ≡ ClaimStatus.disputed)
  pub hidden : f.status ≢ FactStatus.confirmed → c.rendered_value ≡ ""
  pub text :
      (t : String)
      → f.status ≡ FactStatus.confirmed
      → as_text f.typed_value ≡ some t
      → c.rendered_value ≡ t
  pub json :
      f.status ≡ FactStatus.confirmed
      → as_text f.typed_value ≡ none
      → c.rendered_value ≡ stringify f.typed_value

-- One claim for each fact, in order.
abbrev pub AreClaimsOf :
    {V : Type 0}
    → (V → Option String)
    → (V → String)
    → List (CandidateFact V)
    → List ReportClaim
    → Type 0
AreClaimsOf as_text stringify [] [] = Unit
AreClaimsOf as_text stringify [] (c ∷ claims) = ⊥
AreClaimsOf as_text stringify (f ∷ facts) [] = ⊥
AreClaimsOf as_text stringify (f ∷ facts) (c ∷ claims) =
    IsClaimOf as_text stringify f c × AreClaimsOf as_text stringify facts claims

-- The value of a property.
abbrev pub property : String → List (String × ℕ) → Option ℕ
property key [] = none
property key ((k, v) ∷ object) = if k == key then some v else property key object

-- The version of the last fact with an id.
abbrev pub last_version : {V : Type 0} → String → List (CandidateFact V) → Option ℕ
last_version id [] = none
last_version id (f ∷ facts) = elim (last_version id facts) [
  | some v ↦ some v
  | none ↦ if f.id == id then some f.version else none
]

property-set_property :
    (o : List (String × ℕ)) (k j : String) (v : ℕ)
    → property j (set_property o k v) ≡ (if k == j then some v else property j o)
unfolding set_property
property-set_property [] k j v = ground arith
property-set_property ((i, w) ∷ o) k j v = ground (
  arith,
  property-set_property o k j v,
  string_eq.beq_iff i k,
  string_eq.beq_iff i j,
  string_eq.beq_iff k j,
)

property-from_entries :
    {V : Type 0} (facts : List (CandidateFact V)) (o : List (String × ℕ)) (j : String)
    → property j (from_entries o (map (λ f. (f.id, f.version)) facts))
      ≡ (elim (last_version j facts) as (λ x. Option ℕ) [ some v ↦ some v | none ↦ property j o ])
unfolding from_entries
property-from_entries [] o j = refl
property-from_entries (f ∷ facts) o j = ground (
  arith,
  property-from_entries facts (set_property o f.id f.version) j,
  property-set_property o f.id j f.version,
)

-- What stands in a report on an input: the request's own parts, a claim for each fact, and the facts'
-- versions.
pub record IsReportOn {V : Type 0} (as_text : V → Option String) (stringify : V → String)
    (input : ReportInput V) (r : Report) : Type 0 where
  pub id : r.id ≡ input.id
  pub organization : r.organization_id ≡ input.organization_id
  pub household : r.household_id ≡ input.household_id
  pub version : r.version ≡ 1
  pub kind : r.kind ≡ input.kind
  pub generated_at : r.generated_at ≡ input.generated_at
  pub claims : AreClaimsOf as_text stringify input.facts r.claims
  pub versions : (j : String) → property j r.source_fact_versions ≡ last_version j input.facts
  pub missing_categories : r.missing_categories ≡ input.missing_categories
  pub notices : r.notices ≡ input.notices
  pub review_findings : r.review_findings ≡ input.review_findings

module _ {V : Type 0} (as_text : V → Option String) (stringify : V → String) where
  create_report_claims-AreClaimsOf :
      (facts : List (CandidateFact V))
      → AreClaimsOf as_text stringify facts (create_report_claims as_text stringify facts)
  unfolding create_report_claims
  create_report_claims-AreClaimsOf [] = tt
  create_report_claims-AreClaimsOf (f ∷ facts) = (
    record {
      fact = refl;
      evidence = refl;
      field = refl;
      confirmed = ground arith;
      disputed = ground arith;
      hidden = λ h. ground arith;
      text = λ t h e. ground arith;
      json = λ h e. ground arith;
    },
    create_report_claims-AreClaimsOf facts,
  )

  pub report_of-IsReportOn :
      (input : ReportInput V)
      → IsReportOn as_text stringify input (report_of as_text stringify input)
  report_of-IsReportOn input = record {
    id = refl;
    organization = refl;
    household = refl;
    version = refl;
    kind = refl;
    generated_at = refl;
    claims = create_report_claims-AreClaimsOf input.facts;
    versions = λ j. ground (arith, property-from_entries input.facts [] j);
    missing_categories = refl;
    notices = refl;
    review_findings = refl;
  }
