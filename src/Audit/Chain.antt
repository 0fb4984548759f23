-- ===== src/Audit/Chain.antt =====
-- packages/audit/src/index.ts: the digest of an event, and the check of a chain of events.
pub mod Verified
use legacy_vault.Base.{
  ℕ, zero, ◌+◌, ◌-◌, ◌^◌, String, Bool, true, false, not, ◌&&◌, ◌||◌, Option, List, [], ◌∷◌, any,
  if◌then◌else◌, ltb, leb, length, nat_beq, ◌==◌, nat_eq, string_eq, same_items, decode_hex,
  utf16_length, text_prefix, has_folded, Result, ok, err, ◌>>=◌, ◌>>◌, throw_if,
}
use legacy_vault.Base.Json.{Json, num, str, obj, Fields, end, field, Engine, canonicalize, concat}

pub data MetaValue : Type 0 where
  text : String → MetaValue
  number : String → MetaValue
  bool : Bool → MetaValue
  null : MetaValue

pub record AuditEventInput : Type 0 where
  pub organization_id : String
  pub household_id : String
  pub sequence : ℕ
  pub occurred_at : String
  pub actor_pseudonym : String
  pub action : String
  pub outcome : String
  pub metadata : List (String × MetaValue)
  pub previous_hash : String

-- An event is its input and the property `eventHash`.
pub record ChainedAuditEvent : Type 0 where
  pub input : AuditEventInput
  pub event_hash : String

pub data AuditIntegrityError : Type 0 where
  metadata_key_forbidden : String → AuditIntegrityError
  metadata_string_too_long key_too_short sequence_not_positive : AuditIntegrityError

-- What the digest takes from outside: the engine's JSON texts, a number's text, and HMAC-SHA-256 of
-- a text under a key, as lower-case hexadecimal digits.
pub record Digests : Type 0 where
  pub engine : Engine
  pub number : ℕ → String
  pub hmac : List ℕ → String → String

abbrev forbidden_words : List String
forbidden_words =
    "payload" ∷ "document" ∷ "fact" ∷ "prompt" ∷ "output" ∷ "email" ∷ "name" ∷ "token" ∷ "secret"
    ∷ "password" ∷ "cookie" ∷ "authorization" ∷ []

-- `forbiddenMetadataKey.test(key)`
unfoldable pub is_forbidden_key : String → Bool
unfolding has_folded
is_forbidden_key key = any (λ word. has_folded word key) forbidden_words

abbrev pub is_too_long : MetaValue → Bool
is_too_long (text s) = ltb 120 (utf16_length s)
is_too_long _ = false

unfoldable pub assert_metadata : List (String × MetaValue) → Result AuditIntegrityError (Unit {0})
assert_metadata [] = ok tt
assert_metadata ((key, value) ∷ metadata) =
    let rest = assert_metadata metadata in
    do
      throw_if (is_forbidden_key key) (metadata_key_forbidden key)
      throw_if (is_too_long value) metadata_string_too_long
      rest

abbrev meta_json : MetaValue → Json
meta_json (text s) = str s
meta_json (number s) = num s
meta_json (bool b) = Json.bool b
meta_json null = Json.null

abbrev meta_fields : List (String × MetaValue) → Fields
meta_fields [] = end
meta_fields ((key, value) ∷ metadata) = field key (meta_json value) (meta_fields metadata)

abbrev pub largest_safe : ℕ
largest_safe = 2 ^ 53 - 1

module _ (d : Digests) where
  -- `canonicalize(declaredInput)`
  unfoldable pub canonical_input : AuditEventInput → String
  canonical_input input = canonicalize d.engine (
      obj (
        field "organizationId" (str input.organization_id) (
          field "householdId" (str input.household_id) (
            field "sequence" (num (d.number input.sequence)) (
              field "occurredAt" (str input.occurred_at) (
                field "actorPseudonym" (str input.actor_pseudonym) (
                  field "action" (str input.action) (
                    field "outcome" (str input.outcome) (
                      field "metadata" (obj (meta_fields input.metadata))
                        (field "previousHash" (str input.previous_hash) end))))))))))

  unfoldable pub event_digest : AuditEventInput → List ℕ → Result AuditIntegrityError String
  event_digest input audit_key = do
    throw_if (ltb (length audit_key) 32) key_too_short
    assert_metadata input.metadata
    ok (d.hmac audit_key (canonical_input input))

  unfoldable pub create_audit_event :
      AuditEventInput → List ℕ → Result AuditIntegrityError ChainedAuditEvent
  create_audit_event input audit_key = do
    throw_if (not (leb input.sequence largest_safe) || ltb input.sequence 1) sequence_not_positive
    hash ← event_digest input audit_key
    ok (record { input = input; event_hash = hash })

  -- The loop of verifyAuditChain, from an index and the hash of the event before it.
  unfoldable pub verify_from :
      List ℕ → ℕ → String → List ChainedAuditEvent → Result AuditIntegrityError Bool
  verify_from audit_key index previous [] = ok true
  verify_from audit_key index previous (event ∷ events) =
      let rest = verify_from audit_key (index + 1) event.event_hash events in
      if not (event.input.sequence == index + 1) || not (event.input.previous_hash == previous)
      then ok false
      else (do
        expected ← event_digest event.input audit_key
        (if same_items (decode_hex event.event_hash) (decode_hex expected) then rest else ok false))

  unfoldable pub verify_audit_chain :
      List ChainedAuditEvent → List ℕ → Result AuditIntegrityError Bool
  unfolding verify_from
  verify_audit_chain events audit_key = verify_from audit_key 0 "GENESIS" events

  unfoldable pub pseudonymize_identifier : String → List ℕ → Result AuditIntegrityError String
  pseudonymize_identifier identifier audit_key = do
    throw_if (ltb (length audit_key) 32) key_too_short
    ok (text_prefix 32 (d.hmac audit_key (concat "legacy-vault:audit-pseudonym:" identifier)))
