-- ===== src/Repository/Tests/Consents.antt =====
-- A consent that is given, withdrawn and given again.
use legacy_vault.Base.{◌≡◌, ◌≢◌, refl, String, Bool, false, some, List, [], ◌∷◌}
use legacy_vault.Repository.Transactions.{TenantContext}
use legacy_vault.Repository.Rows.{find_row}
use legacy_vault.Repository.Consents.{
  ConsentRow, ConsentInput, consent_id, consent_row, withdrawn_row, active_row, record_consent,
  withdraw_consent,
}
use legacy_vault.Repository.Consents.Withdrawn.{
  ConsentCall, records, withdraws, run_calls, run_calls-final,
}

abbrev context : TenantContext
context = record { organization_id = "o"; household_id = "h"; actor_id = "a" }

abbrev input : ConsentInput
input = record { person_id = "a"; purpose = "ai"; policy_version = "1"; granted_at = 3 }

abbrev withdrawn : ConsentRow
withdrawn = withdrawn_row 5 (consent_row context "c" input)

is_withdrawn : run_calls (records context "c" input ∷ withdraws "c" 1 5 ∷ []) [] ≡ withdrawn ∷ []
unfolding record_consent withdraw_consent
is_withdrawn = refl

abbrev calls : List ConsentCall
calls = withdraws "c" 2 6 ∷ records context "c" input ∷ records context "d" input ∷ []

abbrev id_below : String → String → Bool
id_below a b = false

run_calls-final_example :
    (find_row consent_id "c" (run_calls calls (withdrawn ∷ [])) ≡ some withdrawn)
    × ((person_id purpose : String) (row : ConsentRow)
        → active_row id_below person_id purpose (run_calls calls (withdrawn ∷ [])) ≡ some row
        → row.id ≢ "c")
run_calls-final_example =
    run_calls-final id_below withdrawn calls (withdrawn ∷ []) refl (refl, ((λ e. refl), tt))
