-- ===== src/Repository/Emergency/Release.antt =====
-- decideEmergencyAccess and releaseEmergencyAccess of the repository beside transitionEmergencyAccess of
-- packages/domain/src/workflows.ts.
use legacy_vault.Base.{
  ℕ, ◌≡◌, ◌≤◌, refl, String, Option, none, some, List, Dates, ok, err, ◌>>◌, arith, Option-cases,
  inl, inr, if◌then◌else◌, nat_eq, string_eq, ◌==◌, PrintParses, latest, All, is_some, ◌&&◌,
}
use legacy_vault.Domain.Enums.{EmergencyAccessStatus, requested, released, delayed, emergency_eq}
use legacy_vault.Domain.Entities.{EmergencyAccessRequest}
use legacy_vault.Domain.Emergency.{transition_emergency_access}
use legacy_vault.Domain.Facts.{assert_optimistic_version}
use legacy_vault.Repository.Transactions.{decision_conflict, release_conflict}
use legacy_vault.Repository.Rows.Lookup.{find_row-All}
use legacy_vault.Repository.Rows.Refinement.{Follows, judged, table_view, change_row-Follows}
use legacy_vault.Repository.Facts.{Ciphertext}
use legacy_vault.Repository.Facts.Review.{printed, PrintsText}
use legacy_vault.Repository.Emergency.{
  EmergencyRow, EmergencyAnswer, emergency_id, emergency_answer, Decision, deny, delay,
  decided_status, decided_row, may_decide, decide_emergency_access, may_release, released_row,
  release_emergency_access,
}

-- The instants of a row are those of a Date.
abbrev pub InRange : EmergencyRow → Type 0
InRange row = (t : ℕ) → row.release_after ≡ some t → t ≤ latest

-- `reason_of` opens the reason's ciphertext.
module _ (dates : Dates) (reason_of : Ciphertext → String) where
  abbrev pub to_request : EmergencyRow → EmergencyAccessRequest
  to_request row = record {
    id = row.id;
    organization_id = row.organization_id;
    household_id = row.household_id;
    version = row.version;
    requester_id = row.requester_id;
    recipient_membership_id = row.recipient_membership_id;
    categories = row.categories;
    reason = reason_of row.reason_encrypted;
    status = row.status;
    requested_at = dates.print row.requested_at;
    decision_at = printed dates row.decision_at;
    release_after = printed dates row.release_after;
    denied_reason = none;
  }

  -- The domain's move of a request whose version is the expected one.
  abbrev pub moved_to :
      ℕ → EmergencyAccessStatus → ℕ → EmergencyAccessRequest → Option EmergencyAccessRequest
  moved_to expected status at r =
      elim (assert_optimistic_version r.version expected
        >> transition_emergency_access dates r status (dates.print at)) [
          | ok s ↦ some s
          | err e ↦ none
        ]

  -- A decision on an open request, which also fixes the end of the delay.
  abbrev pub decision_rule :
      ℕ → Decision → ℕ → Option ℕ → EmergencyAccessRequest → Option EmergencyAccessRequest
  decision_rule expected decision at release_after r =
      if r.status == requested
      then elim (moved_to expected (decided_status decision) at r) [
        | none ↦ none
        | some s ↦ some (record s { release_after = printed dates release_after })
      ]
      else none

  -- A release of a delayed request whose delay has an end. The domain's move sets the time of the decision
  -- to `at`; the statement leaves the column, so the old value is put back here.
  abbrev pub release_rule :
      (expected at : ℕ) → EmergencyAccessRequest → Option EmergencyAccessRequest
  release_rule expected at r =
      if r.status == delayed && is_some r.release_after
      then elim (moved_to expected released at r) [
        | none ↦ none
        | some s ↦ some (record s { decision_at = r.decision_at })
      ]
      else none

abbrev pub shown_request : EmergencyAccessRequest → EmergencyAnswer
shown_request r = record { id = r.id; status = r.status; version = r.version }

-- decideEmergencyAccess is the domain's move to "denied" or "delayed" of the request with the id, at the
-- version that the caller expects and only while it is requested, with the end of the delay set as
-- well; where the domain refuses it throws, and every other request stays.
pub decide_emergency_access_refines :
    (dates : Dates) (reason_of : Ciphertext → String) (id : String) (expected : ℕ)
    (decision : Decision) (at : ℕ) (release_after : Option ℕ) (rows : List EmergencyRow)
    → Follows emergency_id
        (to_request dates reason_of)
        shown_request
        id
        decision_conflict
        rows
        (judged emergency_id
          (to_request dates reason_of)
          shown_request
          (decision_rule dates reason_of expected decision at release_after)
          (table_view emergency_id (to_request dates reason_of) shown_request rows id))
        (decide_emergency_access id expected decision at release_after rows)
unfolding decide_emergency_access transition_emergency_access assert_optimistic_version
decide_emergency_access_refines dates reason_of id expected decision at release_after rows =
    change_row-Follows emergency_id (to_request dates reason_of) shown_request emergency_answer
      decision_conflict id (may_decide expected) (decided_row decision at release_after) rows
      (decision_rule dates reason_of expected decision at release_after) (λ row. refl) (λ row. refl)
      (λ row was. agrees decision row)
  where
    agrees :
        (decision : Decision) (row : EmergencyRow)
        → decision_rule dates reason_of expected decision at release_after
            (to_request dates reason_of row)
          ≡ (if may_decide expected row
              then some (to_request dates reason_of (decided_row decision at release_after row))
              else none)
    agrees deny row = ground arith
    agrees delay row = ground arith

-- releaseEmergencyAccess is the domain's move to "released" of the request with the id, at the version
-- that the caller expects, for a delayed request whose delay has an end: the end is compared as an
-- instant, which comes to the domain's comparison of the texts. One column differs from the domain's
-- result: the row keeps the time of the decision to delay, where the domain sets `decisionAt` to the
-- time of the release. Where the domain refuses it throws, and every other request stays.
pub release_emergency_access_refines :
    (dates : Dates) (reason_of : Ciphertext → String) (id : String) (expected at : ℕ)
    (rows : List EmergencyRow)
    → PrintParses dates
    → PrintsText dates
    → at ≤ latest
    → All InRange rows
    → Follows emergency_id
        (to_request dates reason_of)
        shown_request
        id
        release_conflict
        rows
        (judged emergency_id
          (to_request dates reason_of)
          shown_request
          (release_rule dates reason_of expected at)
          (table_view emergency_id (to_request dates reason_of) shown_request rows id))
        (release_emergency_access id expected at rows)
unfolding release_emergency_access transition_emergency_access assert_optimistic_version
release_emergency_access_refines dates reason_of id expected at rows parses prints now in_range =
    change_row-Follows emergency_id (to_request dates reason_of) shown_request emergency_answer
      release_conflict id (may_release expected at) released_row rows
      (release_rule dates reason_of expected at) (λ row. refl) (λ row. refl)
      (λ row was. agrees row (find_row-All emergency_id InRange id rows row in_range was))
  where
    agrees :
        (row : EmergencyRow)
        → InRange row
        → release_rule dates reason_of expected at (to_request dates reason_of row) ≡ (
            if may_release expected at row
            then some (to_request dates reason_of (released_row row))
            else none)
    agrees row range = elim (Option-cases row.release_after) [
      | inl e ↦ ground arith
      | inr (t, e) ↦ ground (arith, prints t, parses at now, parses t (range t e))
    ]
