-- ===== src/Reports/Portable.antt =====
-- packages/reports/src/index.ts: portable exports. A text is JSON text over the engine's `quote` and
-- `precedes` (localeCompare), JSON.parse of a text's bytes and SHA-256 are parameters; bytes are lists of
-- numbers, and the times of exports are texts that Date.parse reads.
pub mod Entries
mod Tests
pub mod Sorted
pub mod Sound
pub mod Opening
pub mod RoundTrip
use Prim.Native.Char.{code}
use Prim.Native.String
use legacy_vault.Base.{
  ℕ, ◌≡◌, String, Bool, true, false, not, ◌&&◌, ◌||◌, Option, none, some, List, [], ◌∷◌, length,
  any, contains, is_some, truthy, ◌==◌, leb, nat_beq, nat_eq, string_eq, fold_case, starts_with,
  if◌then◌else◌, Dates, Result, ok, err, ◌>>=◌, ◌>>◌, ok_or, throw_if,
}
use legacy_vault.Base.Json.{
  Json, num, str, arr, obj, Items, nil, cons, Fields, end, field, Engine, canonicalize,
}
use legacy_vault.Crypto.Envelopes.{
  NodeCrypto, EncryptionContext, EncryptedEnvelope, encrypt_envelope, decrypt_envelope,
  export_manifest_signer, sign_manifest, verify_manifest,
}

pub data PortableExportError : Type 0 where
  path_unsafe media_type_invalid identity_incomplete time_invalid path_duplicated :
      PortableExportError
  envelope_error container_invalid metadata_invalid envelope_digest_invalid : PortableExportError
  signature_invalid decryption_failed payload_invalid payload_duplicated : PortableExportError
  entry_digest_invalid : PortableExportError

pub record PortableExportEntry : Type 0 where
  pub path : String
  pub media_type : String
  pub bytes : List ℕ

pub record InnerExportEntry : Type 0 where
  pub path : String
  pub media_type : String
  pub sha256 : String
  pub size : ℕ
  pub content_base64 : String

pub record InnerExportManifest : Type 0 where
  pub format : String
  pub archive_id : String
  pub organization_id : String
  pub household_id : String
  pub created_at : String
  pub entries : List InnerExportEntry

pub record PublicExportManifest : Type 0 where
  pub format : String
  pub archive_id : String
  pub created_at : String
  pub encryption : String
  pub key_version : ℕ
  pub envelope_sha256 : String

pub record PortableExportContainer : Type 0 where
  pub manifest : PublicExportManifest
  pub envelope : EncryptedEnvelope
  pub signature : String
  pub signer_public_key : String

-- `path.split("/")`
unfoldable pub segments : String → List String
segments String.[] = "" ∷ []
segments (String.◌∷◌ c s) =
    let rest = segments s in
    if nat_beq (code c) b'/'
    then "" ∷ rest
    else elim rest [ [] ↦ String.◌∷◌ c "" ∷ [] | segment ∷ others ↦ String.◌∷◌ c segment ∷ others ]

unfoldable pub has_char : ℕ → String → Bool
has_char k String.[] = false
has_char k (String.◌∷◌ c s) = nat_beq (code c) k || has_char k s

abbrev is_bad_segment : String → Bool
is_bad_segment s = not (truthy s) || (s == "." || s == "..")

unfoldable pub is_unsafe_path : String → Bool
is_unsafe_path path =
    not (truthy path)
    || (starts_with path "/" || (has_char b'\\' path || any is_bad_segment (segments path)))

-- `[a-z0-9]` and `[a-z0-9.+-]`, whatever the case.
unfoldable pub is_name_start : ℕ → Bool
unfolding fold_case
is_name_start c = (leb b'0' c && leb c b'9') || (leb b'a' (fold_case c) && leb (fold_case c) b'z')

unfoldable pub is_name_char : ℕ → Bool
is_name_char c = is_name_start c || (nat_beq c b'.' || (nat_beq c b'+' || nat_beq c b'-'))

-- The rest of a name of two characters at least: up to the end, or up to a slash and a name after it.
unfoldable pub is_name_rest : String → Bool
is_name_rest String.[] = true
is_name_rest (String.◌∷◌ c s) = is_name_char (code c) && is_name_rest s

unfoldable pub is_name : String → Bool
is_name String.[] = false
is_name (String.◌∷◌ c String.[]) = false
is_name (String.◌∷◌ c (String.◌∷◌ d s)) =
    is_name_start (code c) && (is_name_char (code d) && is_name_rest s)

unfoldable pub is_type_rest : String → Bool
is_type_rest String.[] = false
is_type_rest (String.◌∷◌ c s) =
    if nat_beq (code c) b'/' then is_name s else is_name_char (code c) && is_type_rest s

unfoldable pub is_media_type : String → Bool
is_media_type String.[] = false
is_media_type (String.◌∷◌ c String.[]) = false
is_media_type (String.◌∷◌ c (String.◌∷◌ d s)) =
    is_name_start (code c) && (is_name_char (code d) && is_type_rest s)

unfoldable pub assert_entry : (path media_type : String) → Result PortableExportError (Unit {0})
assert_entry path media_type = do
  throw_if (is_unsafe_path path) path_unsafe
  throw_if (not (is_media_type media_type)) media_type_invalid

abbrev pub export_context : String → ℕ → EncryptionContext
export_context archive_id key_version = record {
  organization_id = "portable-export";
  household_id = "portable-export";
  record_id = archive_id;
  purpose = "portable-export";
  key_version = key_version;
}

-- `read_container` and `read_inner` are JSON.parse on the text of the bytes, with the casts; `none` where
-- it throws. `sha256` is the digest in hexadecimal.
pub record Exports : Type 0 where
  pub engine : Engine
  pub node : NodeCrypto
  pub dates : Dates
  pub sha256 : List ℕ → String
  pub read_container : List ℕ → Option PortableExportContainer
  pub read_inner : List ℕ → Option InnerExportManifest

pub record ExportInput : Type 0 where
  pub archive_id : String
  pub organization_id : String
  pub household_id : String
  pub created_at : String
  pub key_version : ℕ
  pub export_key : List ℕ
  pub signing_key : String
  pub entries : List PortableExportEntry
