-- ===== src/Repository/Emergency/Stages.antt =====
-- The rows of `emergency_access_requests` over any calls of the three statements.
use mathlib.Core.Path.{subst}
use legacy_vault.Base.{
  sym, ℕ, ◌≡◌, ◌≢◌, refl, String, not, Option, none, some, List, [], ◌∷◌, All, arith, is_some,
  nat_eq, string_eq, ◌==◌, throw_if, Bool-cases, inl, inr, any, ◌>>◌,
}
use legacy_vault.Domain.Enums.{
  EmergencyAccessStatus, requested, approved, denied, delayed, released, revoked, emergency_eq,
}
use legacy_vault.Repository.Transactions.{
  TenantContext, Operation, with_tenant, recipient_invalid, unique_violation,
}
use legacy_vault.Repository.Rows.{add_row}
use legacy_vault.Repository.Rows.Lookup.{change_row-All, add_row-All}
use legacy_vault.Repository.Emergency.{
  EmergencyRow, EmergencyAnswer, EmergencyInput, Recipient, emergency_id, emergency_answer,
  requested_row, is_recipient, create_emergency_access_request, Decision, deny, delay, decided_row,
  may_decide, decide_emergency_access, may_release, released_row, release_emergency_access,
}

-- A request finds the memberships of its moment.
pub data EmergencyCall : Type 0 where
  request : EmergencyInput → List Recipient → EmergencyCall
  decide : String → (expected : ℕ) → Decision → (at : ℕ) → Option ℕ → EmergencyCall
  release : String → (expected at : ℕ) → EmergencyCall

abbrev pub call : TenantContext → EmergencyCall → Operation (List EmergencyRow) EmergencyAnswer
call context (request input memberships) = create_emergency_access_request context input memberships
call context (decide id expected decision at release_after) =
    decide_emergency_access id expected decision at release_after
call context (release id expected at) = release_emergency_access id expected at

-- The table after some calls, each by its own actor and in its own transaction.
unfoldable pub run_calls :
    List (TenantContext × EmergencyCall) → List EmergencyRow → List EmergencyRow
run_calls [] rows = rows
run_calls ((context, c) ∷ calls) rows = run_calls calls (with_tenant (call context c) rows).1

-- The version at which a request stands in a status; in two of them none does.
abbrev pub stage : EmergencyAccessStatus → Option ℕ
stage requested = some 1
stage denied = some 2
stage delayed = some 2
stage released = some 3
stage approved = none
stage revoked = none

pub record IsStaged (row : EmergencyRow) : Type 0 where
  pub version : stage row.status ≡ some row.version
  pub decided : is_some row.decision_at ≡ not (row.status == requested)
  pub delayed_first : row.status ≡ released → row.release_after ≢ none

call-IsStaged :
    (context : TenantContext) (c : EmergencyCall) (rows : List EmergencyRow)
    → All IsStaged rows
    → All IsStaged (with_tenant (call context c) rows).1
unfolding create_emergency_access_request decide_emergency_access release_emergency_access
call-IsStaged context (request input memberships) rows ps =
    elim (Bool-cases
      (any (is_recipient input.recipient_membership_id context.actor_id) memberships)) [
        | inl e ↦
            subst
              (λ b.
                All IsStaged
                  (with_tenant
                    (λ rows.
                      throw_if (not b) recipient_invalid
                      >> add_row emergency_id emergency_answer unique_violation
                          (requested_row context input) rows)
                    rows).1)
              (sym e)
              (add_row-All emergency_id IsStaged emergency_answer _ (requested_row context input)
                rows (record { version = refl; decided = refl; delayed_first = λ h. ground arith })
                ps)
        | inr e ↦
            subst
              (λ b.
                All IsStaged
                  (with_tenant
                    (λ rows.
                      throw_if (not b) recipient_invalid
                      >> add_row emergency_id emergency_answer unique_violation
                          (requested_row context input) rows)
                    rows).1)
              (sym e) ps
      ]
call-IsStaged context (decide id expected deny at release_after) rows ps =
    change_row-All emergency_id IsStaged emergency_answer _ id (may_decide expected)
      (decided_row deny at release_after) rows
      (λ row g p. record {
        version = ground (arith, p.version);
        decided = refl;
        delayed_first = λ h. ground arith;
      })
      ps
call-IsStaged context (decide id expected delay at release_after) rows ps =
    change_row-All emergency_id IsStaged emergency_answer _ id (may_decide expected)
      (decided_row delay at release_after) rows
      (λ row g p. record {
        version = ground (arith, p.version);
        decided = refl;
        delayed_first = λ h. ground arith;
      })
      ps
call-IsStaged context (release id expected at) rows ps =
    change_row-All emergency_id IsStaged emergency_answer _ id (may_release expected at)
      released_row rows
      (λ row g p. record {
        version = ground (arith, p.version);
        decided = ground (arith, p.decided);
        delayed_first = λ h k. ground arith;
      })
      ps

run_calls-All :
    (calls : List (TenantContext × EmergencyCall)) (rows : List EmergencyRow)
    → All IsStaged rows
    → All IsStaged (run_calls calls rows)
unfolding run_calls
run_calls-All [] rows ps = ps
run_calls-All ((context, c) ∷ calls) rows ps =
    run_calls-All calls (with_tenant (call context c) rows).1 (call-IsStaged context c rows ps)

-- However emergency requests are made, decided and released, from an empty table on and with whatever
-- versions the callers expect: a row is requested at version 1, denied or delayed at version 2, or
-- released at version 3, so there is one decision and one release at most; it has the time of a
-- decision exactly when it is no longer requested, and a released one has the end of its delay.
pub run_calls-IsStaged :
    (calls : List (TenantContext × EmergencyCall)) → All IsStaged (run_calls calls [])
run_calls-IsStaged calls = run_calls-All calls [] tt
