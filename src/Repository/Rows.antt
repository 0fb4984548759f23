-- ===== src/Repository/Rows.antt =====
-- A table of the database with its primary key, as the statements of packages/database/src use it: one
-- row is looked up, inserted or changed. Rows stand in the order in which they came.
pub mod Lookup
pub mod Refinement
pub mod Counting
use legacy_vault.Repository.Transactions.{RepositoryError, Operation}
use legacy_vault.Base.{
  Result, ok, ◌>>=◌, ok_or, String, Bool, true, false, not, Option, none, some, List, [], ◌∷◌, ◌++◌,
  if◌then◌else◌, ◌==◌, find, any, string_eq,
}

module _ {R : Type 0} (key : R → String) where
  -- `select ... where id=$1`
  abbrev pub find_row : String → List R → Option R
  find_row id [] = none
  find_row id (row ∷ rows) = if key row == id then some row else find_row id rows

  -- `insert ... on conflict do nothing`; `none` where the key is taken.
  abbrev pub insert_row : R → List R → Option (List R)
  insert_row row [] = some (row ∷ [])
  insert_row row (x ∷ rows) =
      let rest = insert_row row rows in
      if key x == key row then none else elim rest [ none ↦ none | some after ↦ some (x ∷ after) ]

  -- `update ... where id=$1 and <guard> returning`: the changed row, and the table after it.
  abbrev pub update_row : String → (R → Bool) → (R → R) → List R → Option (R × List R)
  update_row id guard change [] = none
  update_row id guard change (row ∷ rows) =
      let rest = update_row id guard change rows in
      if key row == id
      then (if guard row then some (change row, change row ∷ rows) else none)
      else elim rest [ none ↦ none | some (changed, after) ↦ some (changed, row ∷ after) ]

  -- The update as a whole method: no row returned is the given error, otherwise the row is answered.
  abbrev pub change_row :
      {A : Type 0}
      → (R → A)
      → RepositoryError
      → String
      → (R → Bool)
      → (R → R)
      → Operation (List R) A
  change_row answer error id guard change rows = do
    (row, after) ← ok_or error (update_row id guard change rows)
    ok (answer row, after)

  -- An insert that throws where the key is taken.
  abbrev pub add_row : {A : Type 0} → (R → A) → RepositoryError → R → Operation (List R) A
  add_row answer error row rows = do
    after ← ok_or error (insert_row row rows)
    ok (answer row, after)
