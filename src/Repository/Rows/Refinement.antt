-- ===== src/Repository/Rows/Refinement.antt =====
-- A statement on one row of a table beside a rule on an abstract view of the rows.
use mathlib.Core.Path.{subst}
use legacy_vault.Base.{
  ◌≡◌, sym, ap, ◌∙◌, String, Bool, true, false, Option, none, some, List, Result, ok, err,
  Option-cases, inl, inr, arith, if◌then◌else◌, string_eq, ◌==◌,
}
use legacy_vault.Repository.Transactions.{RepositoryError}
use legacy_vault.Repository.Rows.{find_row, update_row, change_row}
use legacy_vault.Repository.Rows.Lookup.{update_row-Updated, update_row-none}

module _ {R F A : Type 0} (key : R → String) (abstract : R → F) (show : F → A) where
  abbrev pub seen : Option R → Option F
  seen none = none
  seen (some row) = some (abstract row)

  -- The table as a function from keys to abstract rows.
  abbrev pub table_view : List R → String → Option F
  table_view rows id = seen (find_row key id rows)

  -- The outcome of a statement at a key, beside what the rule leaves there: an error and no change, or
  -- the answer, and a table that differs from the one before at that key alone.
  abbrev pub Follows :
      String → RepositoryError → List R → Option F → Result RepositoryError (A × List R) → Type 0
  Follows id error rows none outcome = outcome ≡ err error
  Follows id error rows (some g) outcome =
      (after : List R) × (outcome ≡ ok (show g, after))
      × ((k : String) → table_view after k ≡ (if id == k then some g else table_view rows k))

  -- The rule at a row that may be missing.
  abbrev pub judged : (F → Option F) → Option F → Option F
  judged rule none = none
  judged rule (some f) = rule f

  -- A statement follows a rule if its guard passes where the rule does, and its change is the rule's.
  pub change_row-Follows :
      (answer : R → A) (error : RepositoryError) (id : String) (guard : R → Bool) (change : R → R)
      (rows : List R) (rule : F → Option F)
      → ((row : R) → key (change row) ≡ key row)
      → ((row : R) → answer row ≡ show (abstract row))
      → ((row : R)
          → find_row key id rows ≡ some row
          → rule (abstract row) ≡ (if guard row then some (abstract (change row)) else none))
      → Follows id error rows
          (judged rule (table_view rows id))
          (change_row key answer error id guard change rows)
  change_row-Follows answer error id guard change rows rule keeps answers agrees =
      let result = λ (o : Option F).
        Follows id error rows o (change_row key answer error id guard change rows) in
      let settled : (row : R)
          → find_row key id rows ≡ some row
          → (b : Bool) → guard row ≡ b
          → judged rule (table_view rows id) ≡ (if b then some (abstract (change row)) else none) =
        λ row was b passes.
          ap (λ o. judged rule (seen o)) was
          ∙ (agrees row was ∙ ap (λ b. if b then some (abstract (change row)) else none) passes) in
      elim (Option-cases (update_row key id guard change rows)) [
        | inl e ↦
            let refused : result none = ground arith in
            elim (Option-cases (find_row key id rows)) [
              | inl n ↦ subst result (sym (ap (λ o. judged rule (seen o)) n)) refused
              | inr (row, n) ↦
                  subst result
                    (sym (settled row n false (update_row-none key id guard change rows e row n)))
                    refused
            ]
        | inr ((r, after), e) ↦
            let u = update_row-Updated key id guard change rows r after keeps e in
            let settles : judged rule (table_view rows id) ≡ some (abstract r) =
              settled u.row u.was true u.passes ∙ ap (λ r. some (abstract r)) (sym u.changed) in
            subst result (sym settles)
              (after, ground (arith, answers r), (λ k. ap seen (u.view k) ∙ ground arith))
      ]
