-- ===== src/Domain/Retention.antt =====
-- packages/domain/src/retention.ts: when stored data may be deleted. Ages are whole days.
use legacy_vault.Base.{ℕ, ◌≤◌, ◌≡◌, ◌↔◌, Bool, true, false, ◌&&◌, if◌then◌else◌, leb, arith}

pub data RetentionCategory : Type 0 where
  confirmed_facts original_documents ocr_temporary_files candidate_facts : RetentionCategory
  ai_request_metadata audit_events consent_acceptance billing_records : RetentionCategory
  security_logs backups privacy_request_evidence : RetentionCategory

-- A number of days, or one of the texts that stand for none.
pub data Period : Type 0 where
  days : ℕ → Period
  account_lifetime counsel_defined : Period

pub record RetentionRule : Type 0 where
  pub category : RetentionCategory
  pub active_days : Period
  pub post_account_days : Period
  pub legal_hold_eligible : Bool

abbrev reached : Period → ℕ → Bool
reached (days threshold) age = leb threshold age
reached _ age = false

pub is_eligible_for_deletion : RetentionRule → ℕ → Bool → Bool → Bool
is_eligible_for_deletion rule age_days account_closed legal_hold =
    if legal_hold && rule.legal_hold_eligible
    then false
    else reached (if account_closed then rule.post_account_days else rule.active_days) age_days

-- A period that is a number of days, which the age has reached.
abbrev pub HasPassed : Period → ℕ → Type 0
HasPassed (days d) age = d ≤ age
HasPassed _ age = ⊥

-- The period that counts: the one after the account's closing, if it is closed.
abbrev pub period_of : RetentionRule → Bool → Period
period_of rule true = rule.post_account_days
period_of rule false = rule.active_days

-- Data may be deleted exactly if no legal hold binds it and the period that counts, the one after
-- the account's closing if it is closed, is a number of days that its age has reached.
is_eligible_for_deletion_iff :
    (rule : RetentionRule) (age : ℕ) (closed hold : Bool)
    → (is_eligible_for_deletion rule age closed hold ≡ true) ↔ (
        ¬ ((hold ≡ true) × (rule.legal_hold_eligible ≡ true))
        × HasPassed (period_of rule closed) age)
unfolding is_eligible_for_deletion
is_eligible_for_deletion_iff rule age closed hold = ground arith
