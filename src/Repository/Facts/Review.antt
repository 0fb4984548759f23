-- ===== src/Repository/Facts/Review.antt =====
-- confirmFact and rejectFact of the repository beside confirmFact and rejectFact of
-- packages/domain/src/facts.ts: a table is seen as a function from ids to the domain's facts.
use legacy_vault.Base.{
  ℕ, ◌≡◌, refl, String, true, Option, none, some, List, Dates, Result, ok, err, ◌>>◌, truthy, arith,
  if◌then◌else◌, nat_eq, string_eq,
}
use legacy_vault.Domain.Entities.{CandidateFact}
use legacy_vault.Domain.Errors.{DomainInvariantError, dispute_workflow_required}
use legacy_vault.Domain.Facts as Domain
use legacy_vault.Repository.Transactions.{
  TenantContext, RepositoryError, Operation, confirmation_conflict, rejection_conflict,
}
use legacy_vault.Repository.Rows.Refinement.{Follows, judged, table_view, change_row-Follows}
use legacy_vault.Repository.Facts.{
  Ciphertext, FactRow, FactAnswer, fact_id, fact_answer, may_confirm, confirmed_row, confirm_fact,
  may_reject, rejected_row, reject_fact, is_candidate,
}

abbrev pub Fact : Type 0
Fact = CandidateFact Ciphertext

module _ (dates : Dates) where
  abbrev pub printed : Option ℕ → Option String
  printed none = none
  printed (some t) = some (dates.print t)

  abbrev pub to_fact : FactRow → Fact
  to_fact row = record {
    id = row.id;
    organization_id = row.organization_id;
    household_id = row.household_id;
    version = row.version;
    field_key = row.field_key;
    typed_value = row.typed_value_encrypted;
    status = row.status;
    source_type = row.source_type;
    source_id = row.source_id;
    evidence_ids = row.evidence_ids;
    confidence = row.confidence;
    sensitivity = row.sensitivity;
    confirmed_by = row.confirmed_by;
    confirmed_at = printed row.confirmed_at;
    last_reviewed_at = none;
  }

-- A rule of the domain at an expected version of the fact.
abbrev pub at_version : (Fact → Result DomainInvariantError Fact) → ℕ → Fact → Option Fact
at_version rule expected f = elim (Domain.assert_optimistic_version f.version expected >> rule f) [
  | ok g ↦ some g
  | err e ↦ none
]

abbrev pub shown : Fact → FactAnswer
shown f = record { id = f.id; status = f.status; version = f.version }

-- What is at an id after a statement, by a rule of the domain.
abbrev pub FollowsRule :
    Dates
    → String
    → RepositoryError
    → ℕ
    → (Fact → Result DomainInvariantError Fact)
    → Operation (List FactRow) FactAnswer
    → List FactRow
    → Type 0
FollowsRule dates id error expected rule operation rows =
    Follows fact_id (to_fact dates) shown id error rows
      (judged fact_id (to_fact dates) shown (at_version rule expected)
        (table_view fact_id (to_fact dates) shown rows id))
      (operation rows)

-- The time of a call, printed, is no empty text.
abbrev pub PrintsText : Dates → Type 0
PrintsText dates = (t : ℕ) → truthy (dates.print t) ≡ true

-- confirmFact of the repository, for a named actor: it is confirmFact of the domain applied, at the
-- version that the caller expects, to the fact with the id; where the domain refuses, the version
-- is another one or no such fact is there, it throws; otherwise the fact with that id becomes the
-- domain's, every other fact stays, and the answer names its status and version.
pub confirm_fact_refines :
    (dates : Dates) (context : TenantContext) (id : String) (expected at : ℕ) (rows : List FactRow)
    → PrintsText dates
    → truthy context.actor_id ≡ true
    → FollowsRule dates id confirmation_conflict expected
        (λ f. Domain.confirm_fact f context.actor_id (dates.print at))
        (confirm_fact context id expected at)
        rows
unfolding confirm_fact Domain.confirm_fact Domain.assert_optimistic_version
confirm_fact_refines dates context id expected at rows prints named =
    change_row-Follows fact_id (to_fact dates) shown fact_answer confirmation_conflict id
      (may_confirm expected) (confirmed_row context.actor_id at) rows
      (at_version (λ f. Domain.confirm_fact f context.actor_id (dates.print at)) expected)
      (λ row. refl) (λ row. refl) (λ row was. ground (arith, prints at))

-- The domain's rejectFact for a candidate alone.
abbrev pub reject_candidate : Fact → Result DomainInvariantError Fact
reject_candidate f =
    if is_candidate f.status then Domain.reject_fact f else err dispute_workflow_required

-- rejectFact of the repository is rejectFact of the domain at the expected version where the fact
-- with the id is a candidate, and throws where it is not, also where the domain would reject it; every
-- other fact stays.
pub reject_fact_refines :
    (dates : Dates) (id : String) (expected : ℕ) (rows : List FactRow)
    → FollowsRule dates id rejection_conflict expected reject_candidate
        (reject_fact id expected)
        rows
unfolding reject_fact Domain.reject_fact Domain.assert_optimistic_version
reject_fact_refines dates id expected rows =
    change_row-Follows fact_id (to_fact dates) shown fact_answer rejection_conflict id
      (may_reject expected) rejected_row rows (at_version reject_candidate expected) (λ row. refl)
      (λ row. refl) (λ row was. ground arith)
