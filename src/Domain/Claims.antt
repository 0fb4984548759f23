-- ===== src/Domain/Claims.antt =====
-- packages/domain/src/workflows.ts: createReportClaims and assertReportProvenance.
use legacy_vault.Base.{
  ℕ, String, Bool, true, false, not, ◌&&◌, ◌||◌, Option, none, some, List, [], ◌∷◌, map, is_nil,
  any, contains, Result, ok, ◌>>◌, throw_if, ◌==◌, string_eq,
}
use legacy_vault.Domain.Enums.{FactStatus, ClaimStatus}
use legacy_vault.Domain.Entities.{CandidateFact, ReportClaim, Report}
use legacy_vault.Domain.Errors.{
  DomainInvariantError, claim_evidence_required, claim_version_required,
}

abbrev pub claim_status : FactStatus → ClaimStatus
claim_status FactStatus.confirmed = ClaimStatus.confirmed
claim_status FactStatus.disputed = ClaimStatus.disputed
claim_status _ = ClaimStatus.missing

-- Values of the type `unknown`: `as_text` is the text, for a value with `typeof` "string", and
-- `stringify` is the engine's JSON.stringify.
module _ {V : Type 0} (as_text : V → Option String) (stringify : V → String) where
  abbrev render : V → String
  render value = elim (as_text value) [ some text ↦ text | none ↦ stringify value ]

  abbrev rendered_value : FactStatus → V → String
  rendered_value FactStatus.confirmed value = render value
  rendered_value _ value = ""

  unfoldable pub create_report_claims : List (CandidateFact V) → List ReportClaim
  create_report_claims = map (λ fact. record {
    fact_id = fact.id;
    evidence_ids = fact.evidence_ids;
    field_key = fact.field_key;
    rendered_value = rendered_value fact.status fact.typed_value;
    status = claim_status fact.status;
  })

-- The properties that every object inherits: the operator `in` finds them too.
abbrev inherited : List String
inherited =
    "constructor" ∷ "__defineGetter__" ∷ "__defineSetter__" ∷ "hasOwnProperty" ∷ "__lookupGetter__"
    ∷ "__lookupSetter__" ∷ "isPrototypeOf" ∷ "propertyIsEnumerable" ∷ "toString" ∷ "valueOf"
    ∷ "__proto__" ∷ "toLocaleString" ∷ []

-- `key in object`
unfoldable pub has_key : String → List (String × ℕ) → Bool
has_key key object = any (λ entry. entry.0 == key) object || contains inherited key

abbrev pub is_confirmed_claim : ClaimStatus → Bool
is_confirmed_claim ClaimStatus.confirmed = true
is_confirmed_claim _ = false

-- The loop of assertReportProvenance, over the claims.
unfoldable pub assert_claims :
    List (String × ℕ) → List ReportClaim → Result DomainInvariantError (Unit {0})
assert_claims versions [] = ok tt
assert_claims versions (claim ∷ claims) =
    let rest = assert_claims versions claims in
    do
      throw_if (is_confirmed_claim claim.status && is_nil claim.evidence_ids)
          claim_evidence_required
      throw_if (not (has_key claim.fact_id versions)) claim_version_required
      rest

unfoldable pub assert_report_provenance : Report → Result DomainInvariantError (Unit {0})
unfolding assert_claims
assert_report_provenance report = assert_claims report.source_fact_versions report.claims
