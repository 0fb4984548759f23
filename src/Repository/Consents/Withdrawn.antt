-- ===== src/Repository/Consents/Withdrawn.antt =====
-- What becomes of a consent that was withdrawn.
use mathlib.Core.Path.{subst}
use legacy_vault.Base.{
  ℕ, ◌≡◌, ◌≢◌, refl, String, Bool, true, false, some, List, [], ◌∷◌, All, arith, nat_eq, string_eq,
  inl, inr, Option-cases, Bool-cases, is_some, ltb, ◌==◌, ◌||◌, ◌&&◌, not,
}
use legacy_vault.Repository.Transactions.{TenantContext, with_tenant}
use legacy_vault.Repository.Rows.{find_row, insert_row, update_row}
use legacy_vault.Repository.Rows.Lookup.{
  insert_row-view, insert_row-All, update_row-Updated, update_row-All,
}
use legacy_vault.Repository.Consents.{
  ConsentRow, ConsentInput, consent_id, consent_row, record_consent, may_withdraw, withdrawn_row,
  withdraw_consent, active_row,
}

pub data ConsentCall : Type 0 where
  records : TenantContext → String → ConsentInput → ConsentCall
  withdraws : String → (expected at : ℕ) → ConsentCall

abbrev call : ConsentCall → List ConsentRow → List ConsentRow
call (records context id input) rows = (with_tenant (record_consent context id input) rows).1
call (withdraws id expected at) rows = (with_tenant (withdraw_consent id expected at) rows).1

abbrev pub run_calls : List ConsentCall → List ConsentRow → List ConsentRow
run_calls [] rows = rows
run_calls (c ∷ calls) rows = run_calls calls (call c rows)

-- The table has the one row with its id.
abbrev pub Has : ConsentRow → List ConsentRow → Type 0
Has w rows = (find_row consent_id w.id rows ≡ some w) × All (λ row. row.id ≡ w.id → row ≡ w) rows

module _ (w : ConsentRow) (gone : is_some w.withdrawn_at ≡ true) where
  record-Has :
      (context : TenantContext) (id : String) (input : ConsentInput) (rows : List ConsentRow)
      → Has w rows
      → Has w (call (records context id input) rows)
  unfolding record_consent
  record-Has context id input rows (found, all) =
      let new = consent_row context id input in
      elim (Option-cases (insert_row consent_id new rows)) [
        | inl n ↦ subst (Has w) {x = rows} (ground arith) (found, all)
        | inr (after, n) ↦
            let (free, view) = insert_row-view consent_id new rows after n in
            let other : id ≢ w.id = λ e. cc in
            subst (Has w) {x = after} (ground arith) (
              ground (arith, view w.id, found, other, string_eq.beq_iff id w.id),
              insert_row-All consent_id (λ row. row.id ≡ w.id → row ≡ w) new rows after
                  (λ e. absurd (other e)) all n,
            )
      ]

  stays : (expected : ℕ) (row : ConsentRow) → row ≡ w → may_withdraw expected row ≢ true
  stays expected row e h =
      let passed : may_withdraw expected w ≡ true =
        subst (λ r. may_withdraw expected r ≡ true) e h in
      ground (arith, passed, gone)

  withdraw-Has :
      (id : String) (expected at : ℕ) (rows : List ConsentRow)
      → Has w rows
      → Has w (call (withdraws id expected at) rows)
  unfolding withdraw_consent
  withdraw-Has id expected at rows (found, all) =
      elim (Option-cases
        (update_row consent_id id (may_withdraw expected) (withdrawn_row at) rows)) [
          | inl n ↦ subst (Has w) {x = rows} (ground arith) (found, all)
          | inr ((r, after), n) ↦
              let u =
                update_row-Updated consent_id id (may_withdraw expected) (withdrawn_row at) rows r
                  after (λ row. refl) n in
              let other : id ≢ w.id = λ e. stays expected u.row (cc (e, u.was, found)) u.passes in
              subst (Has w) {x = after} (ground arith) (
                ground (arith, u.view w.id, found, other, string_eq.beq_iff id w.id),
                update_row-All consent_id (λ row. row.id ≡ w.id → row ≡ w) id
                    (may_withdraw expected) (withdrawn_row at) rows r after
                    (λ row h p e. absurd (stays expected row (p e) h)) all n,
              )
        ]

  run_calls-Has :
      (calls : List ConsentCall) (rows : List ConsentRow)
      → Has w rows
      → Has w (run_calls calls rows)
  run_calls-Has [] rows h = h
  run_calls-Has (records context id input ∷ calls) rows h =
      run_calls-Has calls (call (records context id input) rows)
        (record-Has context id input rows h)
  run_calls-Has (withdraws id expected at ∷ calls) rows h =
      run_calls-Has calls (call (withdraws id expected at) rows)
        (withdraw-Has id expected at rows h)

module _ (id_below : String → String → Bool) (P : ConsentRow → Type 0) where
  active_row-All :
      (person_id purpose : String) (rows : List ConsentRow) (row : ConsentRow)
      → All P rows
      → active_row id_below person_id purpose rows ≡ some row
      → P row × (is_some row.withdrawn_at ≡ false)
  unfolding active_row
  active_row-All person_id purpose [] row ps h = cc
  active_row-All person_id purpose (x ∷ rows) row (p, ps) h =
      let tests =
        x.person_id == person_id && x.purpose == purpose && not (is_some x.withdrawn_at) in
      let later = active_row-All person_id purpose rows in
      elim (Bool-cases tests) [
        | inr e ↦ later row ps (ground (arith, e, h))
        | inl e ↦
            let first : P x × (is_some x.withdrawn_at ≡ false) = (p, ground (arith, e)) in
            elim (Option-cases (active_row id_below person_id purpose rows)) [
              | inl n ↦
                  subst (λ r. P r × (is_some r.withdrawn_at ≡ false)) {x = x}
                    (ground (arith, e, n, h)) first
              | inr (o, n) ↦
                  elim (Bool-cases (
                    ltb x.granted_at o.granted_at
                    || x.granted_at == o.granted_at && id_below x.id o.id)) [
                      | inl b ↦ later row ps (ground (arith, e, n, b, h))
                      | inr b ↦
                          subst (λ r. P r × (is_some r.withdrawn_at ≡ false)) {x = x}
                            (ground (arith, e, n, b, h)) first
                    ]
            ]
      ]

-- A consent that was withdrawn stays as it is over any further calls, and is not the active one of any
-- person and purpose.
pub run_calls-final :
    (id_below : String → String → Bool) (w : ConsentRow) (calls : List ConsentCall)
    (rows : List ConsentRow)
    → is_some w.withdrawn_at ≡ true
    → Has w rows
    → (find_row consent_id w.id (run_calls calls rows) ≡ some w)
      × ((person_id purpose : String) (row : ConsentRow)
          → active_row id_below person_id purpose (run_calls calls rows) ≡ some row
          → row.id ≢ w.id)
run_calls-final id_below w calls rows gone has =
    let (found, all) = run_calls-Has w gone calls rows has in
    (
      found,
      λ person_id purpose row h e.
          let (same, unended) =
            active_row-All id_below (λ row. row.id ≡ w.id → row ≡ w) person_id purpose
              (run_calls calls rows) row all h in
          let still : is_some w.withdrawn_at ≡ false =
            subst (λ r. is_some r.withdrawn_at ≡ false) (same e) unended in
          cc,
    )
