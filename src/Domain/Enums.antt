-- ===== src/Domain/Enums.antt =====
-- packages/domain/src/entities.ts and billing.ts: the string unions, each with its equality test.
-- A value is compared in the source by its text; the texts of one union differ from one another.
use legacy_vault.Base.{ℕ, String, ◌≡◌, Eq, enum_eq, arith}

pub data Role : Type 0 where
  owner co_owner editor family_helper professional_advisor read_only_viewer : Role
  emergency_recipient support_agent platform_admin : Role

pub data RecordCategory : Type 0 where
  contacts advisers dependents pets assets liabilities insurance property : RecordCategory
  estate_documents medical_summary digital_asset_locations : RecordCategory
  household_instructions funeral_preferences : RecordCategory

pub data PermissionAction : Type 0 where
  read create update delete export approve : PermissionAction

pub data FactStatus : Type 0 where
  candidate confirmed rejected disputed : FactStatus

pub data Sensitivity : Type 0 where
  standard sensitive highly_sensitive : Sensitivity

pub data SourceType : Type 0 where
  manual document interview professional : SourceType

pub data ConsentPurpose : Type 0 where
  external_ai sensitive_data document_processing transactional_email : ConsentPurpose
  terms privacy_policy : ConsentPurpose

pub data ClaimStatus : Type 0 where
  confirmed missing disputed : ClaimStatus

pub data ReportKind : Type 0 where
  life_inventory family_emergency_guide executor_preparation_packet : ReportKind
  beneficiary_review_checklist document_gap_report household_continuity_guide : ReportKind
  annual_review : ReportKind

pub data EmergencyAccessStatus : Type 0 where
  requested approved denied delayed released revoked : EmergencyAccessStatus

pub data WorkflowStatus : Type 0 where
  pending running blocked completed failed : WorkflowStatus

pub data WorkflowKind : Type 0 where
  export deletion annual_review : WorkflowKind

pub data SubscriptionStatus : Type 0 where
  inactive incomplete incomplete_expired trialing active past_due : SubscriptionStatus
  canceled unpaid paused : SubscriptionStatus

abbrev pub role_index : Role → ℕ
role_index owner = 0
role_index co_owner = 1
role_index editor = 2
role_index family_helper = 3
role_index professional_advisor = 4
role_index read_only_viewer = 5
role_index emergency_recipient = 6
role_index support_agent = 7
role_index platform_admin = 8

abbrev pub category_index : RecordCategory → ℕ
category_index contacts = 0
category_index advisers = 1
category_index dependents = 2
category_index pets = 3
category_index assets = 4
category_index liabilities = 5
category_index insurance = 6
category_index property = 7
category_index estate_documents = 8
category_index medical_summary = 9
category_index digital_asset_locations = 10
category_index household_instructions = 11
category_index funeral_preferences = 12

-- The text of a category, as it stands in field keys.
abbrev pub category_name : RecordCategory → String
category_name contacts = "contacts"
category_name advisers = "advisers"
category_name dependents = "dependents"
category_name pets = "pets"
category_name assets = "assets"
category_name liabilities = "liabilities"
category_name insurance = "insurance"
category_name property = "property"
category_name estate_documents = "estate-documents"
category_name medical_summary = "medical-summary"
category_name digital_asset_locations = "digital-asset-locations"
category_name household_instructions = "household-instructions"
category_name funeral_preferences = "funeral-preferences"

abbrev pub action_index : PermissionAction → ℕ
action_index read = 0
action_index create = 1
action_index update = 2
action_index delete = 3
action_index export = 4
action_index approve = 5

abbrev pub purpose_index : ConsentPurpose → ℕ
purpose_index external_ai = 0
purpose_index sensitive_data = 1
purpose_index document_processing = 2
purpose_index transactional_email = 3
purpose_index terms = 4
purpose_index privacy_policy = 5

abbrev pub emergency_index : EmergencyAccessStatus → ℕ
emergency_index requested = 0
emergency_index approved = 1
emergency_index denied = 2
emergency_index delayed = 3
emergency_index released = 4
emergency_index revoked = 5

pub role_index-injective : (a b : Role) → role_index a ≡ role_index b → a ≡ b
role_index-injective a b h = ground arith

pub category_index-injective : (a b : RecordCategory) → category_index a ≡ category_index b → a ≡ b
category_index-injective a b h = ground arith

pub action_index-injective : (a b : PermissionAction) → action_index a ≡ action_index b → a ≡ b
action_index-injective a b h = ground arith

pub purpose_index-injective : (a b : ConsentPurpose) → purpose_index a ≡ purpose_index b → a ≡ b
purpose_index-injective a b h = ground arith

pub emergency_index-injective :
    (a b : EmergencyAccessStatus) → emergency_index a ≡ emergency_index b → a ≡ b
emergency_index-injective a b h = ground arith

instance abbrev pub role_eq : Eq Role
role_eq = enum_eq role_index role_index-injective

instance abbrev pub category_eq : Eq RecordCategory
category_eq = enum_eq category_index category_index-injective

instance abbrev pub action_eq : Eq PermissionAction
action_eq = enum_eq action_index action_index-injective

instance abbrev pub purpose_eq : Eq ConsentPurpose
purpose_eq = enum_eq purpose_index purpose_index-injective

instance abbrev pub emergency_eq : Eq EmergencyAccessStatus
emergency_eq = enum_eq emergency_index emergency_index-injective
