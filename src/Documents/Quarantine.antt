-- ===== src/Documents/Quarantine.antt =====
-- packages/documents/src/index.ts: DocumentQuarantineService.scan. The object store, the decryption and
-- the malware scanner are the service's own parameters; a store that is asked may throw.
pub mod Cleared
use legacy_vault.Base.{ℕ, String, Option, none, some, List, [], ◌∷◌, map, Result, ok, err}
use legacy_vault.Documents.Bytes.{
  SupportedDocumentType, DocumentValidationError, validate_document_bytes,
}

pub data MalwareScanResult : Type 0 where
  clean : MalwareScanResult
  infected : (signature : Option String) → MalwareScanResult

pub record DocumentScanRecord : Type 0 where
  pub object_key : String
  pub declared_media_type : String
  pub maximum_bytes : ℕ

-- `S` are the states of the object store, `E` what its calls, the decryption and the scanner throw. A
-- marking that throws may have changed the store all the same.
pub record QuarantineServices (S E : Type 0) : Type 0 where
  pub get_ciphertext : S → String → Result E (List ℕ)
  pub mark_clean : S → String → Result E (Unit {0}) × S
  pub decrypt : List ℕ → Result E (List ℕ)
  pub scanner : List ℕ → Result E MalwareScanResult

pub data ScanOutcome : Type 0 where
  clean_awaiting_ocr : SupportedDocumentType → ScanOutcome
  rejected_malware : (signature : String) → ScanOutcome

pub data ScanError (E : Type 0) : Type 0 where
  invalid : DocumentValidationError → ScanError E
  thrown : E → ScanError E

-- What a call returns, the store after it, and the plaintext's buffer after `finally`.
pub record ScanRun (S E : Type 0) : Type 0 where
  pub result : Result (ScanError E) ScanOutcome
  pub store : S
  pub buffer : Option (List ℕ)

abbrev signature_text : Option String → String
signature_text none = "unknown"
signature_text (some text) = text

-- `plaintext.fill(0)`
abbrev pub fill_zero : List ℕ → List ℕ
fill_zero = map (λ b. 0)

module _ {S E : Type 0} (services : QuarantineServices S E) where
  abbrev pub finish_clean : S → String → SupportedDocumentType → List ℕ → ScanRun S E
  finish_clean store key media plaintext = record {
    result = elim (services.mark_clean store key).0 [
      | err e ↦ err (thrown e)
      | ok done ↦ ok (clean_awaiting_ocr media)
    ];
    store = (services.mark_clean store key).1;
    buffer = some (fill_zero plaintext);
  }

  abbrev pub ask_scanner : S → String → SupportedDocumentType → List ℕ → ScanRun S E
  ask_scanner store key media plaintext = elim (services.scanner plaintext) [
    | err e ↦ record { result = err (thrown e); store = store; buffer = some (fill_zero plaintext) }
    | ok (infected signature) ↦ record {
      result = ok (rejected_malware (signature_text signature));
      store = store;
      buffer = some (fill_zero plaintext);
    }
    | ok clean ↦ finish_clean store key media plaintext
  ]

  -- The part under `try`.
  abbrev pub scan_plaintext : S → DocumentScanRecord → List ℕ → ScanRun S E
  scan_plaintext store document plaintext =
      elim (validate_document_bytes plaintext document.declared_media_type document.maximum_bytes) [
        | err e ↦ record {
          result = err (invalid e);
          store = store;
          buffer = some (fill_zero plaintext);
        }
        | ok media ↦ ask_scanner store document.object_key media plaintext
      ]

  unfoldable pub scan : S → DocumentScanRecord → ScanRun S E
  scan store document = elim (services.get_ciphertext store document.object_key) [
    | err e ↦ record { result = err (thrown e); store = store; buffer = none }
    | ok ciphertext ↦ elim (services.decrypt ciphertext) [
      | err e ↦ record { result = err (thrown e); store = store; buffer = none }
      | ok plaintext ↦ scan_plaintext store document plaintext
    ]
  ]
