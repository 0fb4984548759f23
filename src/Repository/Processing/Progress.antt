-- ===== src/Repository/Processing/Progress.antt =====
-- A document that the scanner does not reject can always be taken to its end.
use legacy_vault.Base.{
  ℕ, ◌≡◌, ◌≢◌, refl, ap, String, Bool, true, false, none, some, List, [], ◌∷◌, ok, arith, is_text,
  nat_eq, string_eq, eq_self, is_some, ◌+◌, if◌then◌else◌,
}
use legacy_vault.Domain.Enums.{WorkflowStatus}
use legacy_vault.Worker.Handler.{new_workflow}
use legacy_vault.Repository.Transactions.{TenantContext}
use legacy_vault.Repository.Processing.{
  clean, quarantined, document_eq, Derivative, Processing, UploadInput, DocumentResponse,
  insert_document, uploaded_row, upload_consent, upload_started, processing_started, extracted,
}
use legacy_vault.Repository.Processing.Moves.{
  quarantine, quarantined_row, ScanOutcome, found_clean, complete_document_scan, has_derivative,
  complete_document_ocr, complete_document_original_deletion, ManualCandidate, extract,
  insert_candidates, moved_on, after_scan, scanned_row, original_deleted, after_extraction,
}
use legacy_vault.Repository.Processing.Stages.{
  Stage, absent, awaiting, scanning, refused, reading, deleting, classifying, finished, IsAt,
  nothing, uploaded, running,
}
use legacy_vault.Repository.Processing.Advances.{scan-Running}
use legacy_vault.Repository.Processing.Reading.{ocr-Running, deletion-Running, finish-Running}

-- One statement that succeeds.
pub data Step (p q : Processing) : Type 0 where
  uploads :
      (context : TenantContext) (consent_id : String) (input : UploadInput) {a : DocumentResponse}
      → insert_document context consent_id input p ≡ ok (a, q)
      → Step p q
  hands_over :
      (expected : ℕ) (sha256 : String) (at : ℕ) {a : DocumentResponse}
      → quarantine expected sha256 at p ≡ ok (a, q)
      → Step p q
  scans :
      (dv wv : ℕ) (outcome : ScanOutcome) (at : ℕ)
      → complete_document_scan dv wv outcome at p ≡ ok (tt, q)
      → Step p q
  reads :
      (others : List Derivative) (wv : ℕ) (new : Derivative)
      → complete_document_ocr others wv new p ≡ ok (tt, q)
      → Step p q
  deletes : (at : ℕ) → complete_document_original_deletion at p ≡ ok (tt, q) → Step p q
  takes :
      (context : TenantContext) (expected at : ℕ) (candidates : List ManualCandidate)
      {a : DocumentResponse}
      → extract context expected at candidates p ≡ ok (a, q)
      → Step p q

pub data Steps : Processing → Processing → Type 0 where
  done : {p : Processing} → Steps p p
  more : {p q r : Processing} → Step p q → Steps q r → Steps p r

-- The inputs at hand: who acts, when, and what is uploaded and read; no derivative of another document
-- has the copy's id or object key.
pub record Means : Type 0 where
  pub context : TenantContext
  pub consent_id : String
  pub input : UploadInput
  pub sha256 : String
  pub copy : Derivative
  pub others : List Derivative
  pub free : has_derivative others copy ≡ false
  pub at : ℕ

abbrev pub Finishes : Processing → Type 0
Finishes p = (q : Processing) × Steps p q × IsAt finished q

module _ (m : Means) where
  from_finished : (p : Processing) → IsAt finished p → Finishes p
  from_finished p is = (p, done, is)

  from_classifying : (p : Processing) → IsAt classifying p → Finishes p
  unfolding extract is_text insert_candidates
  from_classifying p (running {d = d} {w = w} is has r) =
      let q : Processing = record p { workflow = some (after_extraction w) } in
      let clean_d : d.status ≡ clean = ground (arith, r.status) in
      let step : extract m.context w.version m.at [] p ≡ ok (extracted d.id [], q) =
        ground (arith, clean_d, r.next, eq_self w.version) in
      (
        q,
        more (takes m.context w.version m.at [] step) done,
        running {d = d} {w = after_extraction w} is refl
            (finish-Running d w p.derivative p.facts p.facts r),
      )

  from_deleting : (p : Processing) → IsAt deleting p → Finishes p
  unfolding complete_document_original_deletion is_text
  from_deleting p (running {d = d} {w = w} is has r) =
      let after = moved_on WorkflowStatus.running "delete-original" (some "classification") w in
      let q : Processing = record p {
        document = some (original_deleted m.at d);
        workflow = some after;
      } in
      let step : complete_document_original_deletion m.at p ≡ ok (tt, q) = ground (arith, r.next) in
      let (z, steps, end) = from_classifying q (
        running {d = original_deleted m.at d} {w = after} refl refl
          (deletion-Running d w p.derivative p.facts m.at r)) in
      (z, more (deletes m.at step) steps, end)

  from_read :
      (p : Processing) (delete : Bool)
      → IsAt (if delete then deleting else classifying) p
      → Finishes p
  from_read p true is = from_deleting p is
  from_read p false is = from_classifying p is

  from_reading : (p : Processing) → IsAt reading p → Finishes p
  unfolding complete_document_ocr is_text
  from_reading p (running {d = d} {w = w} is has r) =
      let delete = d.delete_original_after_processing in
      let after =
        moved_on WorkflowStatus.running "ocr"
          (some (if delete then "delete-original" else "classification")) w in
      let q : Processing = record p { derivative = some m.copy; workflow = some after } in
      let fresh : p.derivative ≡ none = ground (arith, r.derived) in
      let step : complete_document_ocr m.others w.version m.copy p ≡ ok (tt, q) = ground (
        arith,
        r.next,
        fresh,
        m.free,
        eq_self w.version,
        eq_self m.copy.object_key,
        eq_self m.copy.ciphertext_sha256,
        eq_self m.copy.encryption_key_version,
      ) in
      let (z, steps, end) = from_read q delete (
        running {d = d} {w = after} is refl
          (ocr-Running d w p.derivative m.copy p.facts r delete refl)) in
      (z, more (reads m.others w.version m.copy step) steps, end)

  from_scanning : (p : Processing) → IsAt scanning p → Finishes p
  unfolding complete_document_scan is_text
  from_scanning p (running {d = d} {w = w} is has r) =
      let q : Processing = record p {
        document = some (scanned_row found_clean m.at d);
        workflow = some (after_scan found_clean w);
      } in
      let waits : d.status ≡ quarantined = ground (arith, r.status) in
      let step : complete_document_scan d.version w.version found_clean m.at p ≡ ok (tt, q) =
        ground (arith, waits, r.next, eq_self d.version, eq_self w.version) in
      let (z, steps, end) = from_reading q (
        running {d = scanned_row found_clean m.at d} {w = after_scan found_clean w} refl refl
          (scan-Running found_clean d w p.derivative p.facts m.at r)) in
      (z, more (scans d.version w.version found_clean m.at step) steps, end)

  from_awaiting : (p : Processing) → IsAt awaiting p → Finishes p
  unfolding quarantine
  from_awaiting p (uploaded {d = d} is st o w v f) =
      let q : Processing = record p {
        document = some (quarantined_row m.sha256 m.at d);
        workflow = some (new_workflow "scan");
      } in
      let step : quarantine d.version m.sha256 m.at p
          ≡ ok (processing_started d.id quarantined (d.version + 1) 1, q) =
        ground (arith, st, eq_self d.version) in
      let (z, steps, end) = from_scanning q (
        running {d = quarantined_row m.sha256 m.at d} {w = new_workflow "scan"} refl refl (record {
          status = refl;
          next = refl;
          steps = refl;
          original = ap is_some o;
          derived = ap is_some v;
          chosen = λ h. cc;
          taken = λ h. f;
        })) in
      (z, more (hands_over d.version m.sha256 m.at step) steps, end)
  from_awaiting p (running is has r) = ground (arith, r.status)

  from_absent : (p : Processing) → IsAt absent p → Finishes p
  unfolding insert_document
  from_absent p (nothing is has v f) =
      let q : Processing = record p {
        document = some (uploaded_row m.input);
        consents = upload_consent m.context m.consent_id m.input ∷ p.consents;
      } in
      let step : insert_document m.context m.consent_id m.input p
          ≡ ok (upload_started m.input.id, q) =
        ground arith in
      let (z, steps, end) =
        from_awaiting q (uploaded {d = uploaded_row m.input} refl refl refl has v f) in
      (z, more (uploads m.context m.consent_id m.input step) steps, end)
  from_absent p (running is has r) = ground (arith, r.status)

-- From every stage but that of a rejected document, some statements that succeed, the scanner finding
-- the document clean where it is still to be scanned and the copy's id and object key being free, take
-- the document to its end.
pub IsAt-Finishes : (m : Means) (s : Stage) (p : Processing) → IsAt s p → s ≢ refused → Finishes p
IsAt-Finishes m absent p is h = from_absent m p is
IsAt-Finishes m awaiting p is h = from_awaiting m p is
IsAt-Finishes m scanning p is h = from_scanning m p is
IsAt-Finishes m refused p is h = absurd (h refl)
IsAt-Finishes m reading p is h = from_reading m p is
IsAt-Finishes m deleting p is h = from_deleting m p is
IsAt-Finishes m classifying p is h = from_classifying m p is
IsAt-Finishes m finished p is h = from_finished m p is
