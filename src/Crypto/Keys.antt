-- ===== src/Crypto/Keys.antt =====
-- packages/crypto/src/store.ts: the keys of one household. The table holds the household's rows; its
-- unique columns are those of drizzle/0009_household_keys.sql. A random id, key and nonce are arguments.
pub mod Agreement
use legacy_vault.Base.{
  ℕ, String, Bool, true, false, not, ◌||◌, Option, none, some, List, [], ◌∷◌, length, ◌==◌, leb,
  ltb, nat_eq, string_eq, if◌then◌else◌, Result, ok, err, ◌>>=◌, ◌>>◌, ok_or, throw_if, any,
}
use legacy_vault.Crypto.Envelopes.{
  NodeCrypto, CryptographicEnvelopeError, WrappedHouseholdKey, largest_safe,
  create_wrapped_household_key, unwrap_household_key,
}

pub record HouseholdKeyContext : Type 0 where
  pub organization_id : String
  pub household_id : String

pub record ActiveHouseholdKey : Type 0 where
  pub key_version : ℕ
  pub plaintext_key : List ℕ

-- An object in the jsonb column: a property that is missing or has a value of another type is none. A
-- version is a natural number.
pub record StoredKey : Type 0 where
  pub algorithm : Option String
  pub key_purpose : Option String
  pub key_version : Option ℕ
  pub iv : Option String
  pub ciphertext : Option String
  pub authentication_tag : Option String

pub data KeyStatus : Type 0 where
  active decrypt_only retired : KeyStatus

-- `none` is a value that is no object.
pub record KeyRow : Type 0 where
  pub id : String
  pub key_version : ℕ
  pub wrapped_key : Option StoredKey
  pub status : KeyStatus

-- `key_taken` is the database's own error 23505.
pub data KeyStoreError : Type 0 where
  stored_key_invalid key_encryption_key_invalid key_taken : KeyStoreError
  refused : CryptographicEnvelopeError → KeyStoreError

abbrev lift : {A : Type 0} → Result CryptographicEnvelopeError A → Result KeyStoreError A
lift (ok a) = ok a
lift (err e) = err (refused e)

unfoldable pub wrapped_household_key : Option StoredKey → Result KeyStoreError WrappedHouseholdKey
wrapped_household_key value = do
  candidate ← ok_or stored_key_invalid value
  algorithm ← ok_or stored_key_invalid candidate.algorithm
  throw_if (not (algorithm == "A256GCM")) stored_key_invalid
  key_purpose ← ok_or stored_key_invalid candidate.key_purpose
  throw_if (not (key_purpose == "household-dek")) stored_key_invalid
  key_version ← ok_or stored_key_invalid candidate.key_version
  throw_if (not (leb key_version largest_safe)) stored_key_invalid
  iv ← ok_or stored_key_invalid candidate.iv
  ciphertext ← ok_or stored_key_invalid candidate.ciphertext
  authentication_tag ← ok_or stored_key_invalid candidate.authentication_tag
  ok (record {
    envelope = record {
      algorithm = algorithm;
      key_version = key_version;
      iv = iv;
      ciphertext = ciphertext;
      authentication_tag = authentication_tag;
    };
    key_purpose = key_purpose;
  })

-- JSON.stringify(generated.wrappedKey), as the column holds it.
abbrev pub stored_key : WrappedHouseholdKey → Option StoredKey
stored_key wrapped = some (record {
  algorithm = some wrapped.envelope.algorithm;
  key_purpose = some wrapped.key_purpose;
  key_version = some wrapped.envelope.key_version;
  iv = some wrapped.envelope.iv;
  ciphertext = some wrapped.envelope.ciphertext;
  authentication_tag = some wrapped.envelope.authentication_tag;
})

-- The constructor of the store.
abbrev pub open_key_store : List ℕ → Result KeyStoreError (Unit {0})
open_key_store key_encryption_key =
    throw_if (not (length key_encryption_key == 32)) key_encryption_key_invalid

abbrev newer : KeyRow → Option KeyRow → KeyRow
newer row none = row
newer row (some other) = if ltb row.key_version other.key_version then other else row

-- `where status='active' order by key_version desc limit 1`
unfoldable pub latest_active : List KeyRow → Option KeyRow
latest_active [] = none
latest_active (row ∷ rows) = elim row.status [
  | active ↦ some (newer row (latest_active rows))
  | decrypt_only ↦ latest_active rows
  | retired ↦ latest_active rows
]

-- Whether the id or the version of a new row is taken.
abbrev is_taken : (id : String) → ℕ → List KeyRow → Bool
is_taken id version = any (λ row. row.id == id || row.key_version == version)

-- randomUUID, the random key and the random nonce.
pub record Fresh : Type 0 where
  pub id : String
  pub plaintext_key : List ℕ
  pub iv : List ℕ

module _ (node : NodeCrypto) (key_encryption_key : List ℕ) (context : HouseholdKeyContext) where
  unfoldable pub answer : KeyRow → Result KeyStoreError ActiveHouseholdKey
  answer row = do
    wrapped ← wrapped_household_key row.wrapped_key
    plaintext_key ← lift (
        unwrap_household_key node wrapped key_encryption_key context.organization_id
          context.household_id)
    ok (record { key_version = row.key_version; plaintext_key = plaintext_key })

  -- The row is inserted as active; the table has no active one.
  unfoldable pub create_key :
      Fresh → List KeyRow → Result KeyStoreError (ActiveHouseholdKey × List KeyRow)
  create_key fresh rows = do
    generated ← lift (
        create_wrapped_household_key node fresh.plaintext_key fresh.iv key_encryption_key
          context.organization_id context.household_id 1)
    throw_if (is_taken fresh.id 1 rows) key_taken
    ok (
      record { key_version = 1; plaintext_key = generated.0 },
      record {
        id = fresh.id;
        key_version = 1;
        wrapped_key = stored_key generated.1;
        status = active;
      }
          ∷ rows,
    )

  -- What follows the advisory lock, which is held until the transaction ends.
  unfoldable pub after_lock :
      Fresh → List KeyRow → Result KeyStoreError (ActiveHouseholdKey × List KeyRow)
  after_lock fresh rows = elim (latest_active rows) [
    | none ↦ create_key fresh rows
    | some row ↦ answer row >>= λ key. ok (key, rows)
  ]

  unfoldable pub get_or_create_active_key :
      Fresh → List KeyRow → Result KeyStoreError (ActiveHouseholdKey × List KeyRow)
  get_or_create_active_key fresh rows = elim (latest_active rows) [
    | none ↦ after_lock fresh rows
    | some row ↦ answer row >>= λ key. ok (key, rows)
  ]
