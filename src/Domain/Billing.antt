-- ===== src/Domain/Billing.antt =====
-- packages/domain/src/billing.ts: what a subscription gives access to.
pub mod Grace
use legacy_vault.Base.{
  ℕ, ◌+◌, ◌*◌, String, Bool, true, false, ◌&&◌, ◌||◌, Option, none, some, if◌then◌else◌, truthy?,
  Dates, time_clip, lt?, is_text,
}
use legacy_vault.Domain.Enums.{SubscriptionStatus, active, trialing, past_due}

pub data BillingAccessMode : Type 0 where
  full grace read_only : BillingAccessMode

-- `vaultRead` has the one value true in the source.
pub record BillingEntitlements : Type 0 where
  pub vault_read : Bool
  pub vault_write : Bool
  pub document_upload : Bool
  pub ai_interview : Bool
  pub report_generation : Bool
  pub export_generation : Bool

pub record BillingQuotas : Type 0 where
  pub households : ℕ
  pub members : Option ℕ
  pub storage_bytes : Option ℕ
  pub ai_interviews_monthly : Option ℕ

pub record BillingAccessDecision : Type 0 where
  pub access : BillingAccessMode
  pub grace_until : Option String
  pub entitlements : BillingEntitlements
  pub quotas : BillingQuotas

abbrev pub essential_quotas : BillingQuotas
essential_quotas = record {
  households = 1;
  members = none;
  storage_bytes = none;
  ai_interviews_monthly = none;
}

abbrev pub billing_technical_grace_ms : ℕ
billing_technical_grace_ms = 72 * 60 * 60 * 1_000

abbrev pub full_entitlements : BillingEntitlements
full_entitlements = record {
  vault_read = true;
  vault_write = true;
  document_upload = true;
  ai_interview = true;
  report_generation = true;
  export_generation = true;
}

abbrev pub read_only_entitlements : BillingEntitlements
read_only_entitlements = record {
  vault_read = true;
  vault_write = false;
  document_upload = false;
  ai_interview = false;
  report_generation = false;
  export_generation = false;
}

abbrev pub grace_entitlements : BillingEntitlements
grace_entitlements = record full_entitlements { ai_interview = false }

pub record BillingInput : Type 0 where
  pub status : SubscriptionStatus
  pub plan : Option String
  pub provider_updated_at : Option String
  pub now : Option String

abbrev is_current : SubscriptionStatus → Bool
is_current active = true
is_current trialing = true
is_current _ = false

abbrev is_past_due : SubscriptionStatus → Bool
is_past_due past_due = true
is_past_due _ = false

abbrev read_only_decision : BillingAccessDecision
read_only_decision = record {
  access = read_only;
  grace_until = none;
  entitlements = read_only_entitlements;
  quotas = essential_quotas;
}

module _ (dates : Dates) where
  -- The time value of `new Date(Date.parse(text) + BILLING_TECHNICAL_GRACE_MS)`
  abbrev pub grace_end : Option String → Option ℕ
  grace_end none = none
  grace_end (some text) = elim (dates.parse text) [
    | none ↦ none
    | some t ↦ time_clip (t + billing_technical_grace_ms)
  ]

  -- `clock` is the text that `new Date().toISOString()` gives at the call.
  abbrev pub now_text : Option String → String → String
  now_text none clock = clock
  now_text (some text) clock = text

  abbrev grace_decision : Option ℕ → Option ℕ → BillingAccessDecision
  grace_decision until now = elim until [
    | none ↦ read_only_decision
    | some u ↦
        if lt? now (some u)
        then record {
          access = grace;
          grace_until = some (dates.print u);
          entitlements = grace_entitlements;
          quotas = essential_quotas;
        }
        else read_only_decision
  ]

  unfoldable pub derive_billing_access : String → BillingInput → BillingAccessDecision
  derive_billing_access clock input =
      if is_text input.plan "essential" && is_current input.status
      then record {
        access = full;
        grace_until = none;
        entitlements = full_entitlements;
        quotas = essential_quotas;
      }
      else (if is_text input.plan "essential"
            && (is_past_due input.status && truthy? input.provider_updated_at)
          then grace_decision (grace_end input.provider_updated_at)
              (dates.parse (now_text input.now clock))
          else read_only_decision)
