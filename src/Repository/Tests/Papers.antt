-- ===== src/Repository/Tests/Papers.antt =====
-- A document that is uploaded, found clean, read, and whose original is deleted.
use legacy_vault.Base.{◌≢◌, refl, true, none, List, [], ◌∷◌}
use legacy_vault.Repository.Transactions.{TenantContext}
use legacy_vault.Repository.Processing.{UploadInput, DocumentTables, Derivative}
use legacy_vault.Repository.Processing.Moves.{found_clean}
use legacy_vault.Repository.Processing.Stages.{Stage, absent, refused, IsAt, nothing}
use legacy_vault.Repository.Processing.Progress.{Means, Finishes, IsAt-Finishes}
use legacy_vault.Repository.Processing.History.{
  DocumentCall, start, complete, scan, ocr, deletion, extraction, Reaches, run_calls,
  run_calls-IsAt,
}

abbrev context : TenantContext
context = record { organization_id = "o"; household_id = "h"; actor_id = "a" }

abbrev upload : UploadInput
upload = record {
  id = "d";
  object_key = "quarantine/d";
  original_sha256 = "s";
  media_type = "application/pdf";
  wrapped_data_key = "w";
  encryption_key_version = 1;
  maximum_bytes = 100;
  idempotency_key = "k";
  expires_at = none;
  document_consent_policy_version = "1";
  delete_original_after_processing = true;
  consented_at = 1;
}

abbrev copy : Derivative
copy = record {
  id = "x";
  object_key = "derivatives/d";
  ciphertext_sha256 = "c";
  encryption_key_version = 1;
  created_at = 5;
}

abbrev calls : List DocumentCall
calls =
    start context "hash" "consent" upload
    ∷ complete "k2" "hash2" 1 "c" 3
    ∷ scan 2 1 found_clean 4
    ∷ ocr [] 2 copy
    ∷ deletion 6
    ∷ extraction context "k3" "f" 4 7 []
    ∷ []

abbrev empty : DocumentTables
empty = (
  [],
  record {
    document = none;
    consents = [];
    workflow = none;
    derivative = none;
    evidence = [];
    facts = [];
  },
)

run_calls-IsAt_example : (t : Stage) × Reaches absent t calls × IsAt t (run_calls calls empty).1
run_calls-IsAt_example = run_calls-IsAt calls absent empty (nothing refl refl refl refl)

abbrev means : Means
means = record {
  context = context;
  consent_id = "consent";
  input = upload;
  sha256 = "c";
  copy = copy;
  others = [];
  free = refl;
  at = 9;
}

absent-refused : absent ≢ refused
absent-refused h = cc

IsAt-Finishes_example : Finishes empty.1
IsAt-Finishes_example =
    IsAt-Finishes means absent empty.1 (nothing refl refl refl refl) absent-refused
