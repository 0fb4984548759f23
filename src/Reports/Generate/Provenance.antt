-- ===== src/Reports/Generate/Provenance.antt =====
-- generateReport: exactly when a report is made, and what a confirmed fact without evidence does.
use mathlib.Core.Path.{subst}
use legacy_vault.Base.{
  ℕ, ◌≡◌, ◌≢◌, ◌↔◌, inl, inr, refl, String, Bool, true, false, Option, List, [], ◌∷◌, map, arith,
  is_nil, any, all, All, Any, here, there, ◌∙◌, Bool-cases, if◌then◌else◌, ok, err, ◌==◌, string_eq,
  eq_self, ◌||◌, not,
}
use legacy_vault.Domain.Enums.{FactStatus}
use legacy_vault.Domain.Entities.{CandidateFact, Report}
use legacy_vault.Domain.Errors.{claim_evidence_required}
use legacy_vault.Domain.Claims.{
  assert_claims, assert_report_provenance, create_report_claims, has_key,
}
use legacy_vault.Domain.Facts.{confirm_fact, is_confirmed}
use legacy_vault.Reports.Generate.{
  ReportInput, set_property, from_entries, report_of, generate_report,
}
use legacy_vault.Reports.Generate.Content.{IsReportOn, report_of-IsReportOn}

abbrev owns : List (String × ℕ) → String → Bool
owns object key = any (λ entry. entry.0 == key) object

owns-set_property :
    (o : List (String × ℕ)) (k j : String) (v : ℕ)
    → owns (set_property o k v) j ≡ (owns o j || k == j)
unfolding set_property
owns-set_property [] k j v = ground arith
owns-set_property ((i, w) ∷ o) k j v = ground (
  arith,
  owns-set_property o k j v,
  string_eq.beq_iff i k,
  string_eq.beq_iff i j,
  string_eq.beq_iff k j,
)

owns-from_entries :
    (o es : List (String × ℕ)) (j : String) → owns (from_entries o es) j ≡ (owns o j || owns es j)
unfolding from_entries
owns-from_entries o [] j = ground arith
owns-from_entries o ((k, v) ∷ es) j =
    ground (arith, owns-from_entries (set_property o k v) es j, owns-set_property o k j v)

-- The fact can stand in a report: it is not confirmed, or has evidence.
abbrev may_stand : {V : Type 0} → CandidateFact V → Bool
may_stand fact = not (is_confirmed fact.status) || not (is_nil fact.evidence_ids)

module _ {V : Type 0} (as_text : V → Option String) (stringify : V → String) where
  assert_claims_lem :
      (versions : List (String × ℕ)) (facts : List (CandidateFact V))
      → All (λ f. owns versions f.id ≡ true) facts
      → assert_claims versions (create_report_claims as_text stringify facts)
        ≡ (if all may_stand facts then ok tt else err claim_evidence_required)
  unfolding assert_claims create_report_claims has_key
  assert_claims_lem versions [] known = refl
  assert_claims_lem versions (f ∷ facts) known =
      ground (arith, assert_claims_lem versions facts known.1)

  facts_known :
      (versions : List (String × ℕ)) (facts : List (CandidateFact V))
      → ((j : String) → owns (map (λ f. (f.id, f.version)) facts) j ≡ true → owns versions j ≡ true)
      → All (λ f. owns versions f.id ≡ true) facts
  facts_known versions [] h = tt
  facts_known versions (f ∷ facts) h = (
    h f.id (ground (arith, eq_self f.id)),
    facts_known versions facts (λ j k. h j (ground arith)),
  )

  generate_report_lem :
      (input : ReportInput V)
      → generate_report as_text stringify input ≡ (
          if all may_stand input.facts
          then ok (report_of as_text stringify input)
          else err claim_evidence_required)
  unfolding generate_report assert_report_provenance
  generate_report_lem input =
      let facts = input.facts in
      let known =
        facts_known (from_entries [] (map (λ f. (f.id, f.version)) facts)) facts
          (λ j h. owns-from_entries [] (map (λ f. (f.id, f.version)) facts) j ∙ h) in
      ground (
        arith,
        assert_claims_lem (report_of as_text stringify input).source_fact_versions facts known,
      )

  all→All :
      (facts : List (CandidateFact V))
      → (all may_stand facts ≡ true)
        ↔ All (λ f. f.status ≡ FactStatus.confirmed → f.evidence_ids ≢ []) facts
  all→All [] = ground arith
  all→All (f ∷ facts) = ground (arith, all→All facts)

-- A report is made exactly when every confirmed fact has evidence. It then has one claim for each fact,
-- in order: with its value, as a text or as JSON, exactly for a confirmed fact, and marked as disputed
-- exactly for a disputed one. It names, for each id, the version of the last fact with that id, and its
-- other parts are those of the request.
pub generate_report_iff :
    {V : Type 0} (as_text : V → Option String) (stringify : V → String) (input : ReportInput V)
    → (((r : Report) × (generate_report as_text stringify input ≡ ok r))
        ↔ All (λ f. f.status ≡ FactStatus.confirmed → f.evidence_ids ≢ []) input.facts)
      × ((r : Report)
          → generate_report as_text stringify input ≡ ok r
          → IsReportOn as_text stringify input r)
generate_report_iff as_text stringify input =
    let lem = generate_report_lem as_text stringify input in
    let made = report_of as_text stringify input in
    let (backed, back) = all→All as_text stringify input.facts in
    elim (Bool-cases (all may_stand input.facts)) [
      | inl e ↦ (
        ((λ h. backed e), (λ a. (made, ground (arith, lem)))),
        (λ r h.
            subst (IsReportOn as_text stringify input) {x = made} (ground (arith, lem))
              (report_of-IsReportOn as_text stringify input)),
      )
      | inr e ↦ (
        (
          (λ h. let same = h.1 in absurd (ground (arith, lem))),
          (λ a. absurd (ground (arith, back a))),
        ),
        (λ r h. absurd (ground (arith, lem))),
      )
    ]

not-may_stand :
    {V : Type 0} (facts : List (CandidateFact V)) (g : CandidateFact V)
    → g.status ≡ FactStatus.confirmed
    → g.evidence_ids ≡ []
    → Any (λ f. f ≡ g) facts
    → all may_stand facts ≡ false
not-may_stand [] g c e listed = elim listed [ ]
not-may_stand (f ∷ facts) g c e (here same) = ground arith
not-may_stand (f ∷ facts) g c e (there later) = ground (arith, not-may_stand facts g c e later)

-- confirmFact lets a fact that was entered by hand be confirmed without evidence; then no report over
-- a list of facts that holds it can be made: generateReport throws for want of evidence.
pub generate_report_confirmed_without_evidence :
    {V : Type 0} (as_text : V → Option String) (stringify : V → String) (input : ReportInput V)
    (f g : CandidateFact V) (actor at : String)
    → confirm_fact f actor at ≡ ok g
    → f.evidence_ids ≡ []
    → Any (λ h. h ≡ g) input.facts
    → generate_report as_text stringify input ≡ err claim_evidence_required
unfolding confirm_fact
generate_report_confirmed_without_evidence as_text stringify input f g actor at confirmed bare
      listed =
    rw (
      generate_report_lem as_text stringify input,
      not-may_stand input.facts g (ground arith) (ground arith) listed,
    )
