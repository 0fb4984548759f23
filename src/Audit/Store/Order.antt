-- ===== src/Audit/Store/Order.antt =====
-- `order by sequence` against `order by sequence desc limit 1`: the last of the ordered rows is the row
-- that `append` continues.
use legacy_vault.Base.{
  ℕ, ◌≤◌, ◌≡◌, refl, Option, none, some, List, [], ◌∷◌, ◌++◌, arith, All, Bool-cases, Option-cases,
  leb, inl, inr,
}
use legacy_vault.Audit.Store.{
  AuditRow, sequence_of, later, next_number, last_row, insert_row, order_rows,
}

abbrev pub last? : List AuditRow → Option AuditRow
last? [] = none
last? (x ∷ []) = some x
last? (x ∷ y ∷ ys) = last? (y ∷ ys)

abbrev pub IsOrdered : List AuditRow → Type 0
IsOrdered [] = Unit
IsOrdered (x ∷ xs) = All (λ y. sequence_of x ≤ sequence_of y) xs × IsOrdered xs

AllAbove : ℕ → List AuditRow → Type 0
AllAbove n xs = All (λ y. n ≤ sequence_of y) xs

AllAbove-trans : (m n : ℕ) (xs : List AuditRow) → m ≤ n → AllAbove n xs → AllAbove m xs
unfolding AllAbove
AllAbove-trans m n [] h k = tt
AllAbove-trans m n (x ∷ xs) h (k, ks) = (omega arith, AllAbove-trans m n xs h ks)

AllAbove-insert_row :
    (n : ℕ) (r : AuditRow) (xs : List AuditRow)
    → n ≤ sequence_of r
    → AllAbove n xs
    → AllAbove n (insert_row r xs)
unfolding insert_row AllAbove
AllAbove-insert_row n r [] h k = (h, tt)
AllAbove-insert_row n r (x ∷ xs) h (k, ks) =
    elim (Bool-cases (leb (sequence_of r) (sequence_of x))) [
      | inl e ↦ rw e (h, (k, ks))
      | inr e ↦ rw e (k, AllAbove-insert_row n r xs h ks)
    ]

insert_row-IsOrdered :
    (r : AuditRow) (xs : List AuditRow) → IsOrdered xs → IsOrdered (insert_row r xs)
unfolding insert_row AllAbove
insert_row-IsOrdered r [] h = (tt, tt)
insert_row-IsOrdered r (x ∷ xs) (h, k) = elim (Bool-cases (leb (sequence_of r) (sequence_of x))) [
  | inl e ↦ rw e ((ground arith, AllAbove-trans _ _ xs (ground arith) h), (h, k))
  | inr e ↦ rw e (AllAbove-insert_row _ r xs (ground arith) h, insert_row-IsOrdered r xs k)
]

pub order_rows-IsOrdered : (rows : List AuditRow) → IsOrdered (order_rows rows)
unfolding order_rows
order_rows-IsOrdered [] = tt
order_rows-IsOrdered (r ∷ rows) = insert_row-IsOrdered r _ (order_rows-IsOrdered rows)

-- The last of some rows, all numbered n or more.
abbrev LastAbove : ℕ → Option AuditRow → Type 0
LastAbove n none = ⊥
LastAbove n (some l) = n ≤ sequence_of l

last?-LastAbove :
    (n : ℕ) (y : AuditRow) (ys : List AuditRow) → AllAbove n (y ∷ ys) → LastAbove n (last? (y ∷ ys))
unfolding AllAbove
last?-LastAbove n y [] (h, k) = h
last?-LastAbove n y (z ∷ zs) (h, k) = last?-LastAbove n z zs k

-- Inserted behind the last row, or before it.
last?-insert_row :
    (r : AuditRow) (xs : List AuditRow)
    → IsOrdered xs
    → last? (insert_row r xs) ≡ some (later r (last? xs))
unfolding insert_row AllAbove
last?-insert_row r [] h = refl
last?-insert_row r (x ∷ []) h = ground arith
last?-insert_row r (x ∷ y ∷ ys) (h, k) =
    let above = last?-LastAbove (sequence_of x) y ys h in
    elim (Option-cases (last? (y ∷ ys))) [
      | inl e ↦ absurd (rw e at above)
      | inr (l, e) ↦
          let below : sequence_of x ≤ sequence_of l = rw e at above in
          ground (arith, last?-insert_row r (y ∷ ys) k)
    ]

pub last?-order_rows : (rows : List AuditRow) → last? (order_rows rows) ≡ last_row rows
unfolding order_rows last_row
last?-order_rows [] = refl
last?-order_rows (r ∷ rows) =
    ground (
      arith,
      last?-insert_row r (order_rows rows) (order_rows-IsOrdered rows),
      last?-order_rows rows,
    )

insert_row-snoc :
    (r new : AuditRow) (xs : List AuditRow)
    → sequence_of r ≤ sequence_of new
    → insert_row r (xs ++ new ∷ []) ≡ insert_row r xs ++ new ∷ []
unfolding insert_row
insert_row-snoc r new [] h = ground arith
insert_row-snoc r new (x ∷ xs) h = ground (arith, insert_row-snoc r new xs h)

-- A row that no row comes behind stands last.
pub order_rows-snoc :
    (rows : List AuditRow) (new : AuditRow)
    → All (λ r. sequence_of r ≤ sequence_of new) rows
    → order_rows (rows ++ new ∷ []) ≡ order_rows rows ++ new ∷ []
unfolding order_rows
order_rows-snoc [] new h = refl
order_rows-snoc (r ∷ rows) new (h, k) =
    rw (order_rows-snoc rows new k) (insert_row-snoc r new (order_rows rows) h)

pub last_row-max :
    (rows : List AuditRow) (n : ℕ)
    → next_number (last_row rows) ≤ n
    → All (λ r. sequence_of r ≤ n) rows
unfolding last_row
last_row-max [] n h = tt
last_row-max (r ∷ rows) n h = (ground arith, last_row-max rows n (ground arith))
