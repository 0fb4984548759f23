-- ===== src/Documents/Tests.antt =====
-- The documents' theorems at concrete inputs.
use legacy_vault.Base.{
  ◌⊎◌, ℕ, ◌≤◌, ◌≡◌, ◌≢◌, ◌↔◌, refl, String, List, [], ◌∷◌, true, false, length, ok, starts_with,
  string_eq,
}
use legacy_vault.Documents.Bytes.{png, validate_document_bytes}
use legacy_vault.Documents.Bytes.Signatures.{HasSignature, validate_document_bytes_iff}
use legacy_vault.Documents.Quarantine.{
  QuarantineServices, DocumentScanRecord, clean, clean_awaiting_ocr, scan,
}
use legacy_vault.Documents.Quarantine.Cleared.{Passed, is_cleared, MarkingThrew, IsWiped, scan_iff}
use legacy_vault.Documents.Commands.{PutObject, put_ciphertext}
use legacy_vault.Documents.Commands.Places.{Puts, Puts-place}

abbrev image : List ℕ
image = 0x89 ∷ 0x50 ∷ 0x4e ∷ 0x47 ∷ 0x0d ∷ 0x0a ∷ 0x1a ∷ 0x0a ∷ 7 ∷ []

validate_document_bytes_iff_example : (validate_document_bytes image "image/png" 100 ≡ ok png) ↔ (
    (image ≢ [])
    × (length image ≤ 100)
    × HasSignature png image
    × ◌≡◌ {A = String} "image/png" "image/png")
validate_document_bytes_iff_example = validate_document_bytes_iff image "image/png" 100 png

-- A store with one object, whose state is the status of the object.
abbrev services : QuarantineServices String String
services = record {
  get_ciphertext = λ s k. ok image;
  mark_clean = λ s k. (ok tt, "clean");
  decrypt = λ c. ok c;
  scanner = λ p. ok clean;
}

abbrev document : DocumentScanRecord
document = record {
  object_key = "quarantine/1";
  declared_media_type = "image/png";
  maximum_bytes = 100;
}

scan_iff_example :
    (((scan services "quarantined" document).result ≡ ok (clean_awaiting_ocr png))
      ↔ Passed services "quarantined" document png (scan services "quarantined" document).store)
    × (is_cleared (scan services "quarantined" document).result ≡ false
        → ((scan services "quarantined" document).store ≡ "quarantined")
          ⊎ MarkingThrew services "quarantined" document (scan services "quarantined" document))
    × IsWiped (scan services "quarantined" document).buffer
scan_iff_example = scan_iff services "quarantined" document png

abbrev put : PutObject
put = record {
  key = "quarantine/1";
  checksum = "sum";
  content_type = "image/png";
  tagging = "status=quarantined";
}

stored : put_ciphertext "quarantine/1" "sum" "image/png" ≡ ok put
unfolding put_ciphertext starts_with
stored = refl

Puts-place_example :
    (starts_with put.key "quarantine/" ≡ true) ↔ (put.tagging ≡ "status=quarantined")
Puts-place_example = Puts-place (Puts.stores "quarantine/1" "sum" "image/png" stored)
