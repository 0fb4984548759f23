-- ===== src/Documents/Quarantine/Cleared.antt =====
-- DocumentQuarantineService.scan: what a document has passed when it leaves the quarantine.
use mathlib.Core.Path.{subst}
use legacy_vault.Base.{
  ℕ, ◌≡◌, Bool, true, false, ◌↔◌, inl, inr, refl, ap, Option, none, some, List, [], ◌∷◌, arith, All,
  Result, ok, err, ◌⊎◌, Result-cases,
}
use legacy_vault.Documents.Bytes.{SupportedDocumentType, validate_document_bytes}
use legacy_vault.Documents.Quarantine.{
  QuarantineServices, DocumentScanRecord, ScanError, ScanOutcome, clean, clean_awaiting_ocr,
  infected, thrown, ScanRun, finish_clean, fill_zero, scan, scan_plaintext,
}

-- The object was read and decrypted, its bytes were accepted and the scanner found them clean.
pub record Checked {S E : Type 0} (services : QuarantineServices S E) (store : S)
    (document : DocumentScanRecord) (media : SupportedDocumentType) : Type 0 where
  pub ciphertext : List ℕ
  pub plaintext : List ℕ
  pub read : services.get_ciphertext store document.object_key ≡ ok ciphertext
  pub decrypted : services.decrypt ciphertext ≡ ok plaintext
  pub accepted :
      validate_document_bytes plaintext document.declared_media_type document.maximum_bytes
      ≡ ok media
  pub scanned : services.scanner plaintext ≡ ok clean

-- The store was then asked to mark the object, and did.
pub record Passed {S E : Type 0} (services : QuarantineServices S E) (store : S)
    (document : DocumentScanRecord) (media : SupportedDocumentType) (after : S) : Type 0 where
  pub checked : Checked services store document media
  pub marked : services.mark_clean store document.object_key ≡ (ok tt, after)

-- The store was asked to mark the object and threw, in whatever state it is then.
pub record MarkingThrew {S E : Type 0} (services : QuarantineServices S E) (store : S)
    (document : DocumentScanRecord) (run : ScanRun S E) : Type 0 where
  pub media : SupportedDocumentType
  pub checked : Checked services store document media
  pub error : E
  pub marked : services.mark_clean store document.object_key ≡ (err error, run.store)
  pub result : run.result ≡ err (thrown error)

abbrev pub is_cleared : {E : Type 0} → Result (ScanError E) ScanOutcome → Bool
is_cleared (ok (clean_awaiting_ocr media)) = true
is_cleared _ = false

-- No byte but zero.
abbrev pub IsWiped : Option (List ℕ) → Type 0
IsWiped none = Unit
IsWiped (some bytes) = All (λ b. b ≡ 0) bytes

fill_zero-All : (bytes : List ℕ) → All (λ b. b ≡ 0) (fill_zero bytes)
fill_zero-All [] = tt
fill_zero-All (b ∷ bytes) = (refl, fill_zero-All bytes)

module _ {S E : Type 0} (services : QuarantineServices S E) (store : S)
    (document : DocumentScanRecord) where
  Checked-scan :
      (media : SupportedDocumentType) (c : Checked services store document media)
      → scan services store document
        ≡ finish_clean services store document.object_key media c.plaintext
  unfolding scan
  Checked-scan media c = ground (arith, c.read, c.decrypted, c.accepted, c.scanned)

  -- The store is asked to mark the object after all the checks, or not at all.
  scan_cases :
      ((is_cleared (scan services store document).result ≡ false)
        × ((scan services store document).store ≡ store))
      ⊎ ((media : SupportedDocumentType) × Checked services store document media)
  unfolding scan
  scan_cases = elim (Result-cases (services.get_ciphertext store document.object_key)) [
    | inr (e, read) ↦ inl (ground arith, ground arith)
    | inl (ciphertext, read) ↦ elim (Result-cases (services.decrypt ciphertext)) [
      | inr (e, decrypted) ↦ inl (ground arith, ground arith)
      | inl (plaintext, decrypted) ↦
          elim (Result-cases (
            validate_document_bytes plaintext document.declared_media_type
              document.maximum_bytes)) [
                | inr (e, refused) ↦ inl (ground arith, ground arith)
                | inl (media, accepted) ↦ elim (Result-cases (services.scanner plaintext)) [
                  | inr (e, failed) ↦ inl (ground arith, ground arith)
                  | inl (infected signature, found) ↦ inl (ground arith, ground arith)
                  | inl (clean, scanned) ↦ inr (
                    media,
                    record {
                      ciphertext = ciphertext;
                      plaintext = plaintext;
                      read = read;
                      decrypted = decrypted;
                      accepted = accepted;
                      scanned = scanned;
                    },
                  )
                ]
              ]
    ]
  ]

  Passed-scan :
      (media : SupportedDocumentType) (after : S)
      → Passed services store document media after
      → ((scan services store document).result ≡ ok (clean_awaiting_ocr media))
        × ((scan services store document).store ≡ after)
  Passed-scan media after p = rw (Checked-scan media p.checked, p.marked) (refl, refl)

  -- After the checks the run is that of the marking.
  marking :
      (media : SupportedDocumentType) (c : Checked services store document media)
      → Passed services store document media (scan services store document).store
          × ((scan services store document).result ≡ ok (clean_awaiting_ocr media))
        ⊎ MarkingThrew services store document (scan services store document)
  marking media c =
      let after = (services.mark_clean store document.object_key).1 in
      rw (Checked-scan media c)
        (elim (Result-cases (services.mark_clean store document.object_key).0) [
          | inl (done, e) ↦
              inl (record { checked = c; marked = ap (λ r. (r, after)) e }, ground arith)
          | inr (error, e) ↦ inr (record {
            media = media;
            checked = c;
            error = error;
            marked = ap (λ r. (r, after)) e;
            result = ground arith;
          })
        ])

  scan-Passed :
      (media : SupportedDocumentType)
      → (scan services store document).result ≡ ok (clean_awaiting_ocr media)
      → Passed services store document media (scan services store document).store
  scan-Passed media h = elim scan_cases [
    | inl (not_cleared, same) ↦ absurd (ground arith)
    | inr (other, c) ↦ elim (marking other c) [
      | inl (p, r) ↦
          subst (λ m. Passed services store document m (scan services store document).store)
            (ground arith) p
      | inr threw ↦ absurd (ground (arith, threw.result))
    ]
  ]

  plaintext_buffer :
      (plaintext : List ℕ)
      → (scan_plaintext services store document plaintext).buffer ≡ some (fill_zero plaintext)
  plaintext_buffer plaintext = ground arith

  scan-IsWiped : IsWiped (scan services store document).buffer
  unfolding scan
  scan-IsWiped = elim (Result-cases (services.get_ciphertext store document.object_key)) [
    | inr (e, read) ↦ rw (scan, read) tt
    | inl (ciphertext, read) ↦ elim (Result-cases (services.decrypt ciphertext)) [
      | inr (e, decrypted) ↦ rw (scan, read, decrypted) tt
      | inl (plaintext, decrypted) ↦
          rw (scan, read, decrypted, plaintext_buffer plaintext) (fill_zero-All plaintext)
    ]
  ]

  scan_kept :
      is_cleared (scan services store document).result ≡ false
      → ((scan services store document).store ≡ store)
        ⊎ MarkingThrew services store document (scan services store document)
  scan_kept h = elim scan_cases [
    | inl (not_cleared, same) ↦ inl same
    | inr (media, c) ↦ elim (marking media c) [
      | inl (p, r) ↦ absurd (ground (arith, r))
      | inr threw ↦ inr threw
    ]
  ]

-- A document leaves the quarantine, as a document of a type, exactly when its object was read and
-- decrypted, its bytes were accepted as of that type, the scanner found them clean and the object was
-- marked; the store is then the marked one. In every other case the store is as it was, or all the
-- checks were passed and the marking threw. In every case no byte of the plaintext's buffer but zero is left.
pub scan_iff :
    {S E : Type 0} (services : QuarantineServices S E) (store : S) (document : DocumentScanRecord)
    (media : SupportedDocumentType)
    → (((scan services store document).result ≡ ok (clean_awaiting_ocr media))
        ↔ Passed services store document media (scan services store document).store)
      × (is_cleared (scan services store document).result ≡ false
          → ((scan services store document).store ≡ store)
            ⊎ MarkingThrew services store document (scan services store document))
      × IsWiped (scan services store document).buffer
scan_iff services store document media = (
  (
    scan-Passed services store document media,
    (λ p. (Passed-scan services store document media _ p).0),
  ),
  scan_kept services store document,
  scan-IsWiped services store document,
)
