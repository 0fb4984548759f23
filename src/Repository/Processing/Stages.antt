-- ===== src/Repository/Processing/Stages.antt =====
-- The stages that the rows of a document and of its workflow go through together.
use legacy_vault.Base.{
  ◌≡◌, String, Bool, true, false, Option, none, some, List, [], ◌∷◌, ◌++◌, is_some, is_nil, nat_eq,
  string_eq,
}
use legacy_vault.Worker.Handler.{PersistedWorkflow}
use legacy_vault.Repository.Facts.{FactRow}
use legacy_vault.Repository.Processing.{
  DocumentStatus, pending, quarantined, clean, rejected, document_eq, DocumentRow, Derivative,
  Processing,
}

pub data Stage : Type 0 where
  absent awaiting scanning refused reading deleting classifying finished : Stage

-- One call moves a document by one stage, or leaves it where it is.
pub data Moves : Stage → Stage → Type 0 where
  stay : {s : Stage} → Moves s s
  upload : Moves absent awaiting
  hand_over : Moves awaiting scanning
  clear : Moves scanning reading
  refuse : Moves scanning refused
  read_once : Moves reading deleting
  read : Moves reading classifying
  delete : Moves deleting classifying
  take : Moves classifying finished

abbrev pub status_at : Stage → Option DocumentStatus
status_at absent = none
status_at awaiting = none
status_at scanning = some quarantined
status_at refused = some rejected
status_at _ = some clean

abbrev pub next_at : Stage → Option String
next_at scanning = some "scan"
next_at reading = some "ocr"
next_at deleting = some "delete-original"
next_at classifying = some "classification"
next_at _ = none

-- The steps behind a stage, for a document whose original is to be deleted and for another.
abbrev pub read_steps : Bool → List String
read_steps true = "scan" ∷ "ocr" ∷ "delete-original" ∷ []
read_steps false = "scan" ∷ "ocr" ∷ []

abbrev pub steps_at : Stage → Bool → List String
steps_at refused d = "scan" ∷ []
steps_at reading d = "scan" ∷ []
steps_at deleting d = "scan" ∷ "ocr" ∷ []
steps_at classifying d = read_steps d
steps_at finished d = read_steps d ++ "classification" ∷ "manual-extraction" ∷ []
steps_at _ d = []

-- The searchable copy is there once the document has been read, the original is gone once it was to be
-- deleted and was, and facts are taken at the end.
abbrev pub is_read : Stage → Bool
is_read deleting = true
is_read classifying = true
is_read finished = true
is_read _ = false

abbrev pub is_past_deletion : Stage → Bool → Bool
is_past_deletion classifying d = d
is_past_deletion finished d = d
is_past_deletion _ d = false

abbrev pub is_finished : Stage → Bool
is_finished finished = true
is_finished _ = false

pub record Running (s : Stage) (d : DocumentRow) (w : PersistedWorkflow)
    (derivative : Option Derivative) (facts : List FactRow) : Type 0 where
  pub status : status_at s ≡ some d.status
  pub next : w.next_step ≡ next_at s
  pub steps : w.completed_steps ≡ steps_at s d.delete_original_after_processing
  pub original :
      is_some d.original_deleted_at ≡ is_past_deletion s d.delete_original_after_processing
  pub derived : is_some derivative ≡ is_read s
  pub chosen : s ≡ deleting → d.delete_original_after_processing ≡ true
  pub taken : is_finished s ≡ false → is_nil facts ≡ true

pub data IsAt : Stage → Processing → Type 0 where
  nothing :
      {p : Processing}
      → p.document ≡ none
      → p.workflow ≡ none
      → p.derivative ≡ none
      → is_nil p.facts ≡ true
      → IsAt absent p
  uploaded :
      {p : Processing} {d : DocumentRow}
      → p.document ≡ some d
      → d.status ≡ pending
      → d.original_deleted_at ≡ none
      → p.workflow ≡ none
      → p.derivative ≡ none
      → is_nil p.facts ≡ true
      → IsAt awaiting p
  running :
      {s : Stage} {p : Processing} {d : DocumentRow} {w : PersistedWorkflow}
      → p.document ≡ some d
      → p.workflow ≡ some w
      → Running s d w p.derivative p.facts
      → IsAt s p
