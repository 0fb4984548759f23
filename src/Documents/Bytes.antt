-- ===== src/Documents/Bytes.antt =====
-- packages/documents/src/index.ts: validateDocumentBytes. A `Uint8Array` is the list of its bytes.
pub mod Signatures
use legacy_vault.Base.{
  ℕ, zero, suc, String, Bool, true, false, ◌&&◌, ◌||◌, not, Option, none, some, List, [], ◌∷◌,
  length, take, find, ltb, same_items, ◌==◌, nat_eq, string_eq, Result, ok, err, ◌>>=◌, ◌>>◌,
  throw_if, ok_or,
}

pub data SupportedDocumentType : Type 0 where
  pdf jpeg png tiff : SupportedDocumentType

abbrev pub media_type : SupportedDocumentType → String
media_type pdf = "application/pdf"
media_type jpeg = "image/jpeg"
media_type png = "image/png"
media_type tiff = "image/tiff"

pub data DocumentValidationError : Type 0 where
  empty exceeds_limit not_supported type_mismatch : DocumentValidationError

abbrev pub pdf_prefix : List ℕ
pdf_prefix = b'%' ∷ b'P' ∷ b'D' ∷ b'F' ∷ b'-' ∷ []

abbrev pub jpeg_prefix : List ℕ
jpeg_prefix = 0xff ∷ 0xd8 ∷ 0xff ∷ []

abbrev pub png_prefix : List ℕ
png_prefix = 0x89 ∷ 0x50 ∷ 0x4e ∷ 0x47 ∷ 0x0d ∷ 0x0a ∷ 0x1a ∷ 0x0a ∷ []

abbrev pub tiff_little_prefix : List ℕ
tiff_little_prefix = 0x49 ∷ 0x49 ∷ 0x2a ∷ 0x00 ∷ []

abbrev pub tiff_big_prefix : List ℕ
tiff_big_prefix = 0x4d ∷ 0x4d ∷ 0x00 ∷ 0x2a ∷ []

-- `bytes[index] === value`
unfoldable pub has_byte : List ℕ → ℕ → ℕ → Bool
has_byte [] index value = false
has_byte (b ∷ bytes) zero value = b == value
has_byte (b ∷ bytes) (suc index) value = has_byte bytes index value

unfoldable pub matches : SupportedDocumentType → List ℕ → Bool
unfolding has_byte
matches pdf bytes = same_items (take 5 bytes) pdf_prefix
matches jpeg bytes = has_byte bytes 0 0xff && (has_byte bytes 1 0xd8 && has_byte bytes 2 0xff)
matches png bytes = same_items (take 8 bytes) png_prefix
matches tiff bytes =
    same_items (take 4 bytes) tiff_little_prefix || same_items (take 4 bytes) tiff_big_prefix

abbrev pub signatures : List SupportedDocumentType
signatures = pdf ∷ jpeg ∷ png ∷ tiff ∷ []

unfoldable pub detect : List ℕ → Option SupportedDocumentType
unfolding matches
detect bytes = find (λ t. matches t bytes) signatures

unfoldable pub validate_document_bytes :
    List ℕ → String → ℕ → Result DocumentValidationError SupportedDocumentType
validate_document_bytes bytes declared_media_type maximum_bytes = do
  throw_if (length bytes == 0) empty
  throw_if (ltb maximum_bytes (length bytes)) exceeds_limit
  detected ← ok_or not_supported (detect bytes)
  throw_if (not (media_type detected == declared_media_type)) type_mismatch
  ok detected
