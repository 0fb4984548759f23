-- ===== src/Repository/Rows/Lookup.antt =====
-- A table seen as a function from keys to rows, and what an insert or an update does to it.
use mathlib.Core.Path.{subst}
use legacy_vault.Base.{
  ◌≡◌, refl, sym, String, Bool, true, false, Option, none, some, List, [], ◌∷◌, if◌then◌else◌, ◌==◌,
  inl, inr, Bool-cases, Option-cases, arith, string_eq, All,
}
use legacy_vault.Repository.Transactions.{RepositoryError, with_tenant}
use legacy_vault.Repository.Rows.{find_row, insert_row, update_row, change_row, add_row}

module _ {R : Type 0} (key : R → String) where
  -- The table after row `r` has been put at its key.
  abbrev pub put_at : String → R → (String → Option R) → String → Option R
  put_at id r view k = if id == k then some r else view k

  pub find_row-key :
      (id : String) (rows : List R) (row : R) → find_row key id rows ≡ some row → key row ≡ id
  find_row-key id [] row h = cc
  find_row-key id (x ∷ rows) row h = elim (Bool-cases (key x == id)) [
    | inl e ↦ ground (arith, string_eq.beq_iff (key x) id)
    | inr e ↦ find_row-key id rows row (ground arith)
  ]

  -- What an update comes to: at a key whose row passes the guard, that row is changed; otherwise
  -- nothing happens.
  pub record Updated (id : String) (guard : R → Bool) (change : R → R) (rows : List R) (r : R)
      (after : List R) : Type 0 where
    pub row : R
    pub was : find_row key id rows ≡ some row
    pub passes : guard row ≡ true
    pub changed : r ≡ change row
    pub view : (k : String) → find_row key k after ≡ put_at id r (λ k. find_row key k rows) k

  pub update_row-Updated :
      (id : String) (guard : R → Bool) (change : R → R) (rows : List R) (r : R) (after : List R)
      → ((row : R) → key (change row) ≡ key row)
      → update_row key id guard change rows ≡ some (r, after)
      → Updated id guard change rows r after
  update_row-Updated id guard change [] r after keeps h = cc
  update_row-Updated id guard change (x ∷ rows) r after keeps h = elim (Bool-cases (key x == id)) [
    | inl e ↦ record {
      row = x;
      was = ground arith;
      passes = ground arith;
      changed = ground arith;
      view = λ k.
          let same = string_eq.beq_iff (key x) id in
          let after_is : after ≡ change x ∷ rows = ground arith in
          let shown : r ≡ change x = ground arith in
          subst (λ a. find_row key k a ≡ put_at id r (λ k. find_row key k (x ∷ rows)) k)
            (sym after_is)
            (ground (
              arith,
              keeps x,
              same,
              string_eq.beq_iff (key (change x)) k,
              string_eq.beq_iff (key x) k,
              string_eq.beq_iff id k,
            ));
    }
    | inr e ↦ elim (Option-cases (update_row key id guard change rows)) [
      | inl n ↦ ground arith
      | inr ((r', after'), n) ↦
          let ih = update_row-Updated id guard change rows r' after' keeps n in
          record {
            row = ih.row;
            was = ground (arith, ih.was);
            passes = ih.passes;
            changed = ground (arith, ih.changed);
            view = λ k.
                let after_is : after ≡ x ∷ after' = ground arith in
                subst (λ a. find_row key k a ≡ put_at id r (λ k. find_row key k (x ∷ rows)) k)
                  (sym after_is)
                  (ground (
                    arith,
                    ih.view k,
                    string_eq.beq_iff (key x) id,
                    string_eq.beq_iff (key x) k,
                    string_eq.beq_iff id k,
                  ));
          }
    ]
  ]

  pub update_row-none :
      (id : String) (guard : R → Bool) (change : R → R) (rows : List R)
      → update_row key id guard change rows ≡ none
      → (row : R) → find_row key id rows ≡ some row
      → guard row ≡ false
  update_row-none id guard change [] h row e = cc
  update_row-none id guard change (x ∷ rows) h row e =
      let later : update_row key id guard change rows ≡ none
          → find_row key id rows ≡ some row
          → guard row ≡ false =
        λ u e. update_row-none id guard change rows u row e in
      ground (arith, later)

  -- An insert puts the row at the end, unless its key is taken.
  pub data Inserted (row : R) : List R → List R → Type 0 where
    last : Inserted row [] (row ∷ [])
    passing :
        {x : R} {rows rest : List R}
        → (key x == key row) ≡ false
        → Inserted row rows rest
        → Inserted row (x ∷ rows) (x ∷ rest)

  pub insert_row-Inserted :
      (row : R) (rows rest : List R) → insert_row key row rows ≡ some rest → Inserted row rows rest
  insert_row-Inserted row [] rest h = subst (λ a. Inserted row [] a) (ground arith) last
  insert_row-Inserted row (x ∷ rows) rest h = elim (Bool-cases (key x == key row)) [
    | inl e ↦ ground arith
    | inr e ↦ elim (Option-cases (insert_row key row rows)) [
      | inl n ↦ ground arith
      | inr (a, n) ↦
          subst (λ a. Inserted row (x ∷ rows) a) (ground arith)
            (passing e (insert_row-Inserted row rows a n))
    ]
  ]

  Inserted-view :
      {row : R} {rows rest : List R}
      → Inserted row rows rest
      → (find_row key (key row) rows ≡ none)
        × ((k : String) → find_row key k rest ≡ put_at (key row) row (λ k. find_row key k rows) k)
  Inserted-view last = (refl, (λ k. refl))
  Inserted-view {row} (passing {x} e i) =
      let (free, view) = Inserted-view i in
      (
        ground arith,
        (λ k. ground (
          arith,
          view k,
          string_eq.beq_iff (key x) k,
          string_eq.beq_iff (key row) k,
          string_eq.beq_iff (key x) (key row),
        )),
      )

  pub insert_row-view :
      (row : R) (rows rest : List R)
      → insert_row key row rows ≡ some rest
      → (find_row key (key row) rows ≡ none)
        × ((k : String) → find_row key k rest ≡ put_at (key row) row (λ k. find_row key k rows) k)
  insert_row-view row rows rest h = Inserted-view (insert_row-Inserted row rows rest h)

module _ {R : Type 0} (key : R → String) (P : R → Type 0) where
  Inserted-All :
      {row : R} {rows rest : List R} → Inserted key row rows rest → P row → All P rows → All P rest
  Inserted-All last p ps = (p, ps)
  Inserted-All (passing e i) p (q, ps) = (q, Inserted-All i p ps)

  pub insert_row-All :
      (row : R) (rows rest : List R)
      → P row
      → All P rows
      → insert_row key row rows ≡ some rest
      → All P rest
  insert_row-All row rows rest p ps h = Inserted-All (insert_row-Inserted key row rows rest h) p ps

  pub update_row-All :
      (id : String) (guard : R → Bool) (change : R → R) (rows : List R) (r : R) (after : List R)
      → ((row : R) → guard row ≡ true → P row → P (change row))
      → All P rows
      → update_row key id guard change rows ≡ some (r, after)
      → All P after
  update_row-All id guard change [] r after k ps h = cc
  update_row-All id guard change (x ∷ rows) r after k (q, ps) h = elim (Bool-cases (key x == id)) [
    | inl e ↦ elim (Bool-cases (guard x)) [
      | inl g ↦ subst (λ a. All P a) {x = change x ∷ rows} (ground arith) (k x g q, ps)
      | inr g ↦ ground arith
    ]
    | inr e ↦ elim (Option-cases (update_row key id guard change rows)) [
      | inl n ↦ ground arith
      | inr ((r', after'), n) ↦
          subst (λ a. All P a) {x = x ∷ after'} (ground arith)
            (q, update_row-All id guard change rows r' after' k ps n)
    ]
  ]

  pub find_row-All :
      (id : String) (rows : List R) (row : R) → All P rows → find_row key id rows ≡ some row → P row
  find_row-All id [] row ps h = cc
  find_row-All id (x ∷ rows) row (p, ps) h = elim (Bool-cases (key x == id)) [
    | inl e ↦ subst P (ground arith) p
    | inr e ↦ find_row-All id rows row ps (ground arith)
  ]

  -- What an insert or a change of one row keeps of rows, its transaction keeps in the table.
  pub add_row-All :
      {A : Type 0} (answer : R → A) (error : RepositoryError) (row : R) (rows : List R)
      → P row
      → All P rows
      → All P (with_tenant (add_row key answer error row) rows).1
  add_row-All answer error row rows p ps = elim (Option-cases (insert_row key row rows)) [
    | inl e ↦ subst (λ a. All P a) {x = rows} (ground arith) ps
    | inr (after, e) ↦
        subst (λ a. All P a) {x = after} (ground arith) (insert_row-All row rows after p ps e)
  ]

  pub change_row-All :
      {A : Type 0} (answer : R → A) (error : RepositoryError) (id : String) (guard : R → Bool)
      (change : R → R) (rows : List R)
      → ((row : R) → guard row ≡ true → P row → P (change row))
      → All P rows
      → All P (with_tenant (change_row key answer error id guard change) rows).1
  change_row-All answer error id guard change rows keeps ps =
      elim (Option-cases (update_row key id guard change rows)) [
        | inl e ↦ subst (λ a. All P a) {x = rows} (ground arith) ps
        | inr ((r, after), e) ↦
            subst (λ a. All P a) {x = after} (ground arith)
              (update_row-All id guard change rows r after keeps ps e)
      ]
