-- ===== src/Repository/Tests/Reviews.antt =====
-- Facts and emergency requests of one household, at dates whose texts are tallies.
use legacy_vault.Base.{
  ℕ, zero, suc, ◌≤◌, ◌≡◌, refl, ap, String, Option, none, some, List, [], ◌∷◌, arith, Dates,
  PrintParses, latest, All,
}
use legacy_vault.Domain.Enums.{contacts, standard, manual}
use legacy_vault.Repository.Transactions.{
  TenantContext, confirmation_conflict, rejection_conflict, release_conflict,
}
use legacy_vault.Repository.Rows.Refinement.{Follows, judged, table_view}
use legacy_vault.Repository.Facts.{
  Ciphertext, CandidateFactWrite, FactRow, candidate_row, confirm_fact, reject_fact,
}
use legacy_vault.Repository.Facts.Review.{
  PrintsText, FollowsRule, confirm_fact_refines, reject_candidate, reject_fact_refines,
}
use legacy_vault.Repository.Facts.Attributed as Attributed
use legacy_vault.Repository.Emergency.{
  EmergencyInput, EmergencyRow, requested_row, decided_row, delay, emergency_id,
  release_emergency_access,
}
use legacy_vault.Repository.Emergency.Release.{
  InRange, to_request, shown_request, release_rule, release_emergency_access_refines,
}
use legacy_vault.Repository.Emergency.Stages as Stages
use legacy_vault.Domain.Facts as Domain

tally : ℕ → String
tally zero = ""
tally (suc n) = String.◌∷◌ "i" (tally n)

count : String → ℕ
count String.[] = 0
count (String.◌∷◌ c s) = suc (count s)

count-tally : (t : ℕ) → count (tally t) ≡ t
unfolding count tally
count-tally zero = refl
count-tally (suc t) = ap suc (count-tally t)

-- One stroke more than the instant, so that no text is empty.
less_one : ℕ → Option ℕ
less_one zero = none
less_one (suc n) = some n

abbrev tallies : Dates
tallies = record { parse = λ s. less_one (count s); print = λ t. tally (suc t) }

tallies-PrintParses : PrintParses tallies
unfolding less_one
tallies-PrintParses t h = ap less_one (count-tally (suc t))

tallies-PrintsText : PrintsText tallies
unfolding tally
tallies-PrintsText t = refl

abbrev context : TenantContext
context = record { organization_id = "o"; household_id = "h"; actor_id = "a" }

abbrev value : Ciphertext
value = record { bytes = 1 ∷ 2 ∷ []; key_version = 1 }

abbrev written : CandidateFactWrite
written = record {
  id = "f";
  field_key = "contacts.doctor";
  ciphertext = value;
  source_type = manual;
  source_id = "s";
  evidence_ids = [];
  confidence = none;
  sensitivity = standard;
}

abbrev rows : List FactRow
rows = candidate_row context written ∷ []

confirm_fact_refines_example :
    FollowsRule tallies "f" confirmation_conflict 1
      (λ f. Domain.confirm_fact f "a" (tallies.print 5))
      (confirm_fact context "f" 1 5)
      rows
confirm_fact_refines_example =
    confirm_fact_refines tallies context "f" 1 5 rows tallies-PrintsText refl

reject_fact_refines_example :
    FollowsRule tallies "f" rejection_conflict 1 reject_candidate (reject_fact "f" 1) rows
reject_fact_refines_example = reject_fact_refines tallies "f" 1 rows

abbrev fact_calls : List (TenantContext × Attributed.FactCall)
fact_calls =
    (context, Attributed.create written)
    ∷ (context, Attributed.confirm "f" 1 5)
    ∷ (context, Attributed.dispute "f" 2)
    ∷ (context, Attributed.confirm "f" 3 9)
    ∷ []

run_calls-IsAttributed_example : All Attributed.IsAttributed (Attributed.run_calls fact_calls [])
run_calls-IsAttributed_example = Attributed.run_calls-IsAttributed fact_calls

abbrev asked : EmergencyInput
asked = record {
  id = "e";
  recipient_membership_id = "m";
  categories = contacts ∷ [];
  reason_encrypted = value;
  requested_at = 1;
}

abbrev delayed_rows : List EmergencyRow
delayed_rows = decided_row delay 2 (some 7) (requested_row context asked) ∷ []

delayed_rows-InRange : All InRange delayed_rows
delayed_rows-InRange = ((λ t h. ground arith), tt)

nine : 9 ≤ latest
nine = omega arith

release_emergency_access_refines_example :
    Follows emergency_id
      (to_request tallies (λ _. "ill"))
      shown_request
      "e"
      release_conflict
      delayed_rows
      (judged emergency_id
        (to_request tallies (λ _. "ill"))
        shown_request
        (release_rule tallies (λ _. "ill") 2 9)
        (table_view emergency_id (to_request tallies (λ _. "ill")) shown_request delayed_rows "e"))
      (release_emergency_access "e" 2 9 delayed_rows)
release_emergency_access_refines_example =
    release_emergency_access_refines tallies (λ _. "ill") "e" 2 9 delayed_rows tallies-PrintParses
      tallies-PrintsText nine delayed_rows-InRange

abbrev emergency_calls : List (TenantContext × Stages.EmergencyCall)
emergency_calls =
    (context, Stages.decide "e" 1 delay 2 (some 7)) ∷ (context, Stages.release "e" 2 9) ∷ []

run_calls-IsStaged_example : All Stages.IsStaged (Stages.run_calls emergency_calls [])
run_calls-IsStaged_example = Stages.run_calls-IsStaged emergency_calls
