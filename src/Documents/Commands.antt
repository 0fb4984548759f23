-- ===== src/Documents/Commands.antt =====
-- packages/documents/src/index.ts: DocumentObjectStore. Each operation gives the command that it hands to
-- the S3 client, or throws before it does; what the client then answers is a parameter.
pub mod Places
use legacy_vault.Base.{
  ℕ, String, Bool, true, false, not, ◌||◌, Option, none, some, List, [], ◌∷◌, find, ltb, ◌==◌,
  string_eq, is_text, starts_with, Part, word, hexes, matches_parts, Result, ok, err, ◌>>=◌, ◌>>◌,
  throw_if, ok_or,
}

pub data ObjectIntegrityError : Type 0 where
  not_quarantine upload_expiry export_key download_name download_expiry : ObjectIntegrityError
  derivative_key checksum_mismatch body_missing : ObjectIntegrityError

pub record PutObject : Type 0 where
  pub key : String
  pub checksum : String
  pub content_type : String
  pub tagging : String

-- A command signed into a URL, with the seconds until it expires.
pub record Presigned (C : Type 0) : Type 0 where
  pub command : C
  pub expires_in : ℕ

pub record GetExport : Type 0 where
  pub key : String
  pub download_name : String

pub record Tag : Type 0 where
  pub key : Option String
  pub value : Option String

abbrev pub export_parts : List Part
export_parts = word "exports/" ∷ hexes 36 ∷ word ".lvault" ∷ []

abbrev pub download_parts : List Part
download_parts = hexes 36 ∷ word ".lvault" ∷ []

abbrev pub derivative_parts : List Part
derivative_parts =
    word "derivatives/" ∷ hexes 36 ∷ word "/" ∷ hexes 36 ∷ word ".encrypted.json" ∷ []

abbrev pub encrypted_type : String
encrypted_type = "application/vnd.legacy-vault.encrypted+json"

abbrev quarantined : String → String → String → PutObject
quarantined key checksum content_type = record {
  key = key;
  checksum = checksum;
  content_type = content_type;
  tagging = "status=quarantined";
}

unfoldable pub create_presigned_upload :
    (object_key checksum content_type : String) (expires_in_seconds : ℕ)
    → Result ObjectIntegrityError (Presigned PutObject)
create_presigned_upload object_key checksum content_type expires_in_seconds = do
  throw_if (not (starts_with object_key "quarantine/")) not_quarantine
  throw_if (ltb expires_in_seconds 30 || ltb 900 expires_in_seconds) upload_expiry
  ok (record {
    command = quarantined object_key checksum content_type;
    expires_in = expires_in_seconds;
  })

unfoldable pub put_ciphertext :
    (object_key checksum content_type : String) → Result ObjectIntegrityError PutObject
put_ciphertext object_key checksum content_type = do
  throw_if (not (starts_with object_key "quarantine/")) not_quarantine
  ok (quarantined object_key checksum content_type)

unfoldable pub put_generated_export :
    (object_key checksum : String) → Result ObjectIntegrityError PutObject
put_generated_export object_key checksum = do
  throw_if (not (matches_parts export_parts object_key)) export_key
  ok (record {
    key = object_key;
    checksum = checksum;
    content_type = encrypted_type;
    tagging = "status=completed&kind=portable-export";
  })

unfoldable pub create_presigned_export_download :
    (object_key download_name : String) (expires_in_seconds : ℕ)
    → Result ObjectIntegrityError (Presigned GetExport)
create_presigned_export_download object_key name expires_in_seconds = do
  throw_if (not (matches_parts export_parts object_key)) export_key
  throw_if (not (matches_parts download_parts name)) download_name
  throw_if (ltb expires_in_seconds 30 || ltb 900 expires_in_seconds) download_expiry
  ok (record {
    command = record { key = object_key; download_name = name };
    expires_in = expires_in_seconds;
  })

unfoldable pub put_document_derivative :
    (object_key checksum : String) → Result ObjectIntegrityError PutObject
put_document_derivative object_key checksum = do
  throw_if (not (matches_parts derivative_parts object_key)) derivative_key
  ok (record {
    key = object_key;
    checksum = checksum;
    content_type = encrypted_type;
    tagging = "status=clean&kind=searchable-pdf";
  })

-- `stored` is the checksum that the store answers with.
unfoldable pub assert_stored_checksum :
    (stored : Option String) (checksum : String) → Result ObjectIntegrityError (Unit {0})
assert_stored_checksum stored checksum = throw_if (not (is_text stored checksum)) checksum_mismatch

-- `tags` is the tag set that the store answers with, if any.
abbrev pub object_status : Option (List Tag) → Option String
object_status none = none
object_status (some tags) = elim (find (λ tag. is_text tag.key "status") tags) [
  | none ↦ none
  | some tag ↦ tag.value
]

unfoldable pub get_ciphertext : Option (List ℕ) → Result ObjectIntegrityError (List ℕ)
get_ciphertext body = ok_or body_missing body
