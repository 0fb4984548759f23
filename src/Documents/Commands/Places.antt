-- ===== src/Documents/Commands/Places.antt =====
-- DocumentObjectStore: where a command puts an object, and how it tags it.
use legacy_vault.Base.{
  ℕ, ◌≡◌, ◌≢◌, ◌↔◌, refl, String, true, false, arith, string_eq, ok, fold_case, starts_with,
  strip_word, matches_parts,
}
use legacy_vault.Documents.Commands.{
  PutObject, Presigned, export_parts, derivative_parts, create_presigned_upload, put_ciphertext,
  put_generated_export, put_document_derivative,
}

export-start :
    (key : String) → matches_parts export_parts key ≡ true → starts_with key "quarantine/" ≡ false
unfolding matches_parts strip_word starts_with fold_case
export-start String.[] h = refl
export-start (String.◌∷◌ c s) h = ground arith

derivative-start :
    (key : String)
    → matches_parts derivative_parts key ≡ true
    → starts_with key "quarantine/" ≡ false
unfolding matches_parts strip_word starts_with fold_case
derivative-start String.[] h = refl
derivative-start (String.◌∷◌ c s) h = ground arith

-- The commands that put an object, by the operation that they come from.
pub data Puts : PutObject → Type 0 where
  uploads :
      (key checksum type : String) (seconds : ℕ) {p : Presigned PutObject}
      → create_presigned_upload key checksum type seconds ≡ ok p
      → Puts p.command
  stores :
      (key checksum type : String) {p : PutObject}
      → put_ciphertext key checksum type ≡ ok p
      → Puts p
  exports :
      (key checksum : String) {p : PutObject} → put_generated_export key checksum ≡ ok p → Puts p
  derives :
      (key checksum : String) {p : PutObject} → put_document_derivative key checksum ≡ ok p → Puts p

completed_ne : ◌≢◌ {A = String} "status=completed&kind=portable-export" "status=quarantined"
completed_ne h = cc

clean_ne : ◌≢◌ {A = String} "status=clean&kind=searchable-pdf" "status=quarantined"
clean_ne h = cc

-- Whichever operation puts an object, its key stands in the quarantine exactly when its tag says that it
-- is quarantined: no object enters there as clean or completed, and none elsewhere as quarantined.
pub Puts-place :
    {p : PutObject}
    → Puts p
    → (starts_with p.key "quarantine/" ≡ true) ↔ (p.tagging ≡ "status=quarantined")
unfolding create_presigned_upload put_ciphertext put_generated_export put_document_derivative
Puts-place (uploads key checksum type seconds h) = ground arith
Puts-place (stores key checksum type h) = ground arith
Puts-place (exports key checksum h) = ground (arith, export-start key, completed_ne)
Puts-place (derives key checksum h) = ground (arith, derivative-start key, clean_ne)
