-- ===== src/Repository/Facts/Attributed.antt =====
-- The rows of `facts` over any calls of the four statements.
use legacy_vault.Base.{
  ℕ, ◌≡◌, ◌≢◌, ◌⊎◌, refl, String, true, List, [], ◌∷◌, All, arith, is_some, nat_eq, string_eq, ◌≤◌,
}
use legacy_vault.Domain.Enums.{manual}
use legacy_vault.Domain.Facts.{is_confirmed}
use legacy_vault.Repository.Transactions.{TenantContext, Operation, with_tenant}
use legacy_vault.Repository.Rows.Lookup.{change_row-All, add_row-All}
use legacy_vault.Repository.Facts.{
  FactRow, FactAnswer, CandidateFactWrite, fact_id, fact_answer, candidate_row,
  create_candidate_fact, may_confirm, confirmed_row, confirm_fact, may_reject, rejected_row,
  reject_fact, may_dispute, disputed_row, dispute_fact,
}

pub data FactCall : Type 0 where
  create : CandidateFactWrite → FactCall
  confirm : String → (expected at : ℕ) → FactCall
  reject dispute : String → ℕ → FactCall

abbrev pub call : TenantContext → FactCall → Operation (List FactRow) FactAnswer
call context (create input) = create_candidate_fact context input
call context (confirm id expected at) = confirm_fact context id expected at
call context (reject id expected) = reject_fact id expected
call context (dispute id expected) = dispute_fact id expected

-- The table after some calls, each by its own actor and in its own transaction.
unfoldable pub run_calls : List (TenantContext × FactCall) → List FactRow → List FactRow
run_calls [] rows = rows
run_calls ((context, c) ∷ calls) rows = run_calls calls (with_tenant (call context c) rows).1

-- A row of a confirmed fact, and no other, says who confirmed it and when, and a confirmed fact has
-- evidence or was entered by hand.
pub record IsAttributed (row : FactRow) : Type 0 where
  pub by : is_some row.confirmed_by ≡ is_confirmed row.status
  pub time : is_some row.confirmed_at ≡ is_confirmed row.status
  pub backed : is_confirmed row.status ≡ true → (row.source_type ≡ manual) ⊎ (row.evidence_ids ≢ [])
  pub counted : 1 ≤ row.version

call-IsAttributed :
    (context : TenantContext) (c : FactCall) (rows : List FactRow)
    → All IsAttributed rows
    → All IsAttributed (with_tenant (call context c) rows).1
unfolding create_candidate_fact confirm_fact reject_fact dispute_fact
call-IsAttributed context (create input) rows ps =
    add_row-All fact_id IsAttributed fact_answer _ (candidate_row context input) rows
      (record { by = refl; time = refl; backed = λ h. cc; counted = omega arith }) ps
call-IsAttributed context (confirm id expected at) rows ps =
    change_row-All fact_id IsAttributed fact_answer _ id (may_confirm expected)
      (confirmed_row context.actor_id at) rows
      (λ row g p. record {
        by = refl;
        time = refl;
        backed = λ h. ground arith;
        counted = ground arith;
      })
      ps
call-IsAttributed context (reject id expected) rows ps =
    change_row-All fact_id IsAttributed fact_answer _ id (may_reject expected) rejected_row rows
      (λ row g p. record {
        by = ground (arith, p.by);
        time = ground (arith, p.time);
        backed = λ h. cc;
        counted = ground (arith);
      })
      ps
call-IsAttributed context (dispute id expected) rows ps =
    change_row-All fact_id IsAttributed fact_answer _ id (may_dispute expected) disputed_row rows
      (λ row g p. record { by = refl; time = refl; backed = λ h. cc; counted = ground arith }) ps

run_calls-All :
    (calls : List (TenantContext × FactCall)) (rows : List FactRow)
    → All IsAttributed rows
    → All IsAttributed (run_calls calls rows)
unfolding run_calls
run_calls-All [] rows ps = ps
run_calls-All ((context, c) ∷ calls) rows ps =
    run_calls-All calls (with_tenant (call context c) rows).1 (call-IsAttributed context c rows ps)

-- However candidates are created, confirmed, rejected and disputed, from an empty table on and with
-- whatever versions the callers expect: the row of a confirmed fact, and no other, says who confirmed it
-- and when, and a confirmed fact has evidence or was entered by hand; versions count from one.
pub run_calls-IsAttributed :
    (calls : List (TenantContext × FactCall)) → All IsAttributed (run_calls calls [])
run_calls-IsAttributed calls = run_calls-All calls [] tt
