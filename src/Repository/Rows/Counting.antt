-- ===== src/Repository/Rows/Counting.antt =====
-- How many rows of a kind a table has, and which, after an insert or an update.
use mathlib.Core.Path.{subst}
use legacy_vault.Base.{
  ◌+◌, ◌≡◌, refl, String, Bool, true, false, some, List, [], ◌∷◌, ◌==◌, inl, inr, Bool-cases,
  Option-cases, arith, string_eq, length, filter,
}
use legacy_vault.Repository.Rows.{insert_row, update_row}
use legacy_vault.Repository.Rows.Lookup.{Inserted, last, passing, insert_row-Inserted}

module _ {R : Type 0} (key : R → String) where
  -- One row is changed, and it passed the guard.
  pub data Changed (id : String) (guard : R → Bool) (change : R → R)
      : List R → List R → Type 0 where
    found :
        {x : R} {rows : List R}
        → guard x ≡ true
        → Changed id guard change (x ∷ rows) (change x ∷ rows)
    later :
        {x : R} {rows rest : List R}
        → Changed id guard change rows rest
        → Changed id guard change (x ∷ rows) (x ∷ rest)

  pub update_row-Changed :
      (id : String) (guard : R → Bool) (change : R → R) (rows : List R) (r : R) (after : List R)
      → update_row key id guard change rows ≡ some (r, after)
      → Changed id guard change rows after
  update_row-Changed id guard change [] r after h = cc
  update_row-Changed id guard change (x ∷ rows) r after h = elim (Bool-cases (key x == id)) [
    | inl e ↦ elim (Bool-cases (guard x)) [
      | inl g ↦
          subst (λ a. Changed id guard change (x ∷ rows) a) {x = change x ∷ rows} (ground arith)
            (found g)
      | inr g ↦ ground arith
    ]
    | inr e ↦ elim (Option-cases (update_row key id guard change rows)) [
      | inl n ↦ ground arith
      | inr ((r', after'), n) ↦
          subst (λ a. Changed id guard change (x ∷ rows) a) {x = x ∷ after'} (ground arith)
            (later (update_row-Changed id guard change rows r' after' n))
    ]
  ]

  -- `p` is the kind of the rows.
  module _ (p : R → Bool) where
    Inserted-none :
        {row : R} {rows rest : List R}
        → p row ≡ false
        → Inserted key row rows rest
        → filter p rest ≡ filter p rows
    Inserted-none other last = ground arith
    Inserted-none other (passing e i) = ground (arith, Inserted-none other i)

    -- A row of another kind is inserted.
    pub insert_row-filter :
        (row : R) (rows rest : List R)
        → p row ≡ false
        → insert_row key row rows ≡ some rest
        → filter p rest ≡ filter p rows
    insert_row-filter row rows rest other h =
        Inserted-none other (insert_row-Inserted key row rows rest h)

    -- A row of another kind is changed and stays of another kind.
    pub Changed-filter :
        {id : String} {guard : R → Bool} {change : R → R} {rows rest : List R}
        → ((x : R) → guard x ≡ true → p x ≡ false)
        → ((x : R) → guard x ≡ true → p (change x) ≡ false)
        → Changed id guard change rows rest
        → filter p rest ≡ filter p rows
    Changed-filter old new (found {x} g) = ground (arith, old x g, new x g)
    Changed-filter old new (later c) = ground (arith, Changed-filter old new c)

    -- A row of another kind becomes one of the kind.
    pub Changed-count :
        {id : String} {guard : R → Bool} {change : R → R} {rows rest : List R}
        → ((x : R) → guard x ≡ true → p x ≡ false)
        → ((x : R) → guard x ≡ true → p (change x) ≡ true)
        → Changed id guard change rows rest
        → length (filter p rest) ≡ length (filter p rows) + 1
    Changed-count old new (found {x} g) = ground (arith, old x g, new x g)
    Changed-count old new (later c) = ground (arith, Changed-count old new c)

  Inserted-length :
      {row : R} {rows rest : List R} → Inserted key row rows rest → length rest ≡ length rows + 1
  Inserted-length last = refl
  Inserted-length (passing e i) = omega (arith, Inserted-length i)

  pub insert_row-length :
      (row : R) (rows rest : List R)
      → insert_row key row rows ≡ some rest
      → length rest ≡ length rows + 1
  insert_row-length row rows rest h = Inserted-length (insert_row-Inserted key row rows rest h)

  pub Changed-length :
      {id : String} {guard : R → Bool} {change : R → R} {rows rest : List R}
      → Changed id guard change rows rest
      → length rest ≡ length rows
  Changed-length (found g) = refl
  Changed-length (later c) = omega (arith, Changed-length c)
