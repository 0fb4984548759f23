-- ===== src/Crypto/Envelopes.antt =====
-- packages/crypto/src/index.ts: encryptEnvelope, decryptEnvelope, the wrapped household keys and
-- ExportManifestSigner. AES-256-GCM, Ed25519, base64, UTF-8 and decimal texts are Node's: a parameter.
-- Random bytes are arguments.
pub mod Opening
use legacy_vault.Base.{
  ℕ, ◌≡◌, String, Bool, true, false, not, ◌&&◌, ◌||◌, Option, none, some, List, length, ◌==◌, leb,
  ltb, nat_eq, string_eq, Result, ok, err, ◌>>=◌, ◌>>◌, ok_or, throw_if,
}
use legacy_vault.Base.Json.{concat}

-- `encrypt key iv aad plaintext` is the ciphertext and the tag; `decrypt` is `none` where
-- `final` throws. `public_key` is `none` for a text that is no Ed25519 private key; a signature is made with the
-- private key's text and checked with the public one's, `verifies` being false where Node throws.
pub record NodeCrypto : Type 0 where
  pub encrypt : (key iv aad plaintext : List ℕ) → List ℕ × List ℕ
  pub decrypt : (key iv aad ciphertext tag : List ℕ) → Option (List ℕ)
  pub to_base64 : List ℕ → String
  pub from_base64 : String → List ℕ
  pub utf8 : String → List ℕ
  pub decimal : ℕ → String
  pub public_key : String → Option String
  pub signature : String → List ℕ → List ℕ
  pub verifies : List ℕ → List ℕ → String → Bool

pub data CryptographicEnvelopeError : Type 0 where
  key_length version_not_positive mismatch authentication_failed : CryptographicEnvelopeError
  purpose_mismatch signing_key_invalid : CryptographicEnvelopeError

pub record EncryptionContext : Type 0 where
  pub organization_id : String
  pub household_id : String
  pub record_id : String
  pub purpose : String
  pub key_version : ℕ

pub record EncryptedEnvelope : Type 0 where
  pub algorithm : String
  pub key_version : ℕ
  pub iv : String
  pub ciphertext : String
  pub authentication_tag : String

pub record WrappedHouseholdKey : Type 0 where
  pub envelope : EncryptedEnvelope
  pub key_purpose : String

abbrev pub assert_aes_key : List ℕ → Result CryptographicEnvelopeError (Unit {0})
assert_aes_key key = throw_if (not (length key == 32)) key_length

-- Number.MAX_SAFE_INTEGER
abbrev pub largest_safe : ℕ
largest_safe = 9_007_199_254_740_991

abbrev pub is_version : ℕ → Bool
is_version v = leb v largest_safe && leb 1 v

abbrev colon : String → String → String
colon a b = concat a (concat ":" b)

abbrev pub household_context : (organization_id household_id : String) → ℕ → EncryptionContext
household_context organization_id household_id key_version = record {
  organization_id = organization_id;
  household_id = household_id;
  record_id = household_id;
  purpose = "household-dek";
  key_version = key_version;
}

module _ (node : NodeCrypto) where
  abbrev pub context_text : EncryptionContext → String
  context_text c = colon "legacy-vault" (
      colon c.organization_id (
        colon c.household_id
          (colon c.record_id (colon c.purpose (concat "v" (node.decimal c.key_version))))))

  unfoldable pub associated_data : EncryptionContext → Result CryptographicEnvelopeError (List ℕ)
  associated_data context = do
    throw_if (not (is_version context.key_version)) version_not_positive
    ok (node.utf8 (context_text context))

  abbrev pub sealed : List ℕ → (ciphertext tag : List ℕ) → ℕ → EncryptedEnvelope
  sealed iv ciphertext tag key_version = record {
    algorithm = "A256GCM";
    key_version = key_version;
    iv = node.to_base64 iv;
    ciphertext = node.to_base64 ciphertext;
    authentication_tag = node.to_base64 tag;
  }

  unfoldable pub encrypt_envelope :
      (iv plaintext key : List ℕ)
      → EncryptionContext
      → Result CryptographicEnvelopeError EncryptedEnvelope
  encrypt_envelope iv plaintext key context = do
    assert_aes_key key
    aad ← associated_data context
    ok (
        sealed iv (node.encrypt key iv aad plaintext).0 (node.encrypt key iv aad plaintext).1
          context.key_version)

  -- What is thrown inside the `try`, also for the version, becomes one error.
  abbrev caught :
      {A : Type 0} → Result CryptographicEnvelopeError A → Result CryptographicEnvelopeError A
  caught (ok a) = ok a
  caught (err e) = err authentication_failed

  abbrev opened :
      EncryptedEnvelope → List ℕ → EncryptionContext → Result CryptographicEnvelopeError (List ℕ)
  opened envelope key context = do
    aad ← associated_data context
    ok_or authentication_failed (
        node.decrypt key (node.from_base64 envelope.iv) aad (node.from_base64 envelope.ciphertext)
          (node.from_base64 envelope.authentication_tag))

  unfoldable pub decrypt_envelope :
      EncryptedEnvelope → List ℕ → EncryptionContext → Result CryptographicEnvelopeError (List ℕ)
  decrypt_envelope envelope key context = do
    assert_aes_key key
    throw_if
        (not (envelope.algorithm == "A256GCM") || not (envelope.key_version == context.key_version))
        mismatch
    caught (opened envelope key context)

  unfoldable pub create_wrapped_household_key :
      (plaintext_key iv key_encryption_key : List ℕ) (organization_id household_id : String)
      → ℕ
      → Result CryptographicEnvelopeError (List ℕ × WrappedHouseholdKey)
  create_wrapped_household_key plaintext_key iv key_encryption_key organization_id household_id
        key_version =
      do
        assert_aes_key key_encryption_key
        envelope ←
            encrypt_envelope iv plaintext_key key_encryption_key
              (household_context organization_id household_id key_version)
        ok (plaintext_key, record { envelope = envelope; key_purpose = "household-dek" })

  unfoldable pub unwrap_household_key :
      WrappedHouseholdKey
      → List ℕ
      → (organization_id household_id : String) → Result CryptographicEnvelopeError (List ℕ)
  unwrap_household_key wrapped key_encryption_key organization_id household_id = do
    throw_if (not (wrapped.key_purpose == "household-dek")) purpose_mismatch
    decrypt_envelope wrapped.envelope key_encryption_key
        (household_context organization_id household_id wrapped.envelope.key_version)

  -- The signer: the private key's text, if it is one, with its public key's.
  unfoldable pub export_manifest_signer :
      String → Result CryptographicEnvelopeError (String × String)
  export_manifest_signer private_key = do
    public ← ok_or signing_key_invalid (node.public_key private_key)
    ok (private_key, public)

  abbrev pub sign_manifest : String → List ℕ → String
  sign_manifest private_key manifest = node.to_base64 (node.signature private_key manifest)

  abbrev pub verify_manifest : List ℕ → (signature public_key : String) → Bool
  verify_manifest manifest signature public_key =
      node.verifies manifest (node.from_base64 signature) public_key
