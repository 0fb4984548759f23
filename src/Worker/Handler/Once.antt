-- ===== src/Worker/Handler/Once.antt =====
-- The handler of persisted workflows: each step is performed once, in order, over any number of runs.
use legacy_vault.Base.{
  ◌≡◌, refl, sym, ap, ◌∙◌, String, true, Option, none, List, [], ◌∷◌, ◌++◌, arith, distinct, is_nil,
  string_eq, Any, here, there,
}
use legacy_vault.Worker.Handler.Names.{append-nil, append_assoc}
use legacy_vault.Worker.Handler.{PersistedWorkflow, is_completed, new_workflow, head_name, handle}
use legacy_vault.Worker.Handler.Steps.{
  IsAt, returning, remaining, returning-remaining, Advances, handle-Advances,
}

-- The row and the steps performed after some runs of the handler, one after another.
unfoldable pub handle_all :
    List String
    → PersistedWorkflow
    → List (String → Option String)
    → PersistedWorkflow × List String
handle_all names row [] = (row, [])
handle_all names row (outcome ∷ outcomes) =
    let run = handle outcome names row in
    let (after, performed) = handle_all names run.row outcomes in
    (after, run.performed ++ performed)

remaining_all : List (String → Option String) → List String → List String
remaining_all [] left = left
remaining_all (outcome ∷ outcomes) left = remaining_all outcomes (remaining outcome left)

-- A run in which no step throws.
abbrev pub Faultless : (String → Option String) → Type 0
Faultless outcome = (name : String) → outcome name ≡ none

remaining-Faultless :
    (outcome : String → Option String) (left : List String)
    → Faultless outcome
    → remaining outcome left ≡ []
remaining-Faultless outcome [] h = refl
remaining-Faultless outcome (name ∷ left) h =
    ground (arith, h name, remaining-Faultless outcome left h)

remaining_all-nil : (outcomes : List (String → Option String)) → remaining_all outcomes [] ≡ []
unfolding remaining_all
remaining_all-nil [] = refl
remaining_all-nil (outcome ∷ outcomes) = remaining_all-nil outcomes

remaining_all-Faultless :
    (outcomes : List (String → Option String)) (left : List String)
    → Any Faultless outcomes
    → remaining_all outcomes left ≡ []
unfolding remaining_all
remaining_all-Faultless [] left t = elim t [ ]
remaining_all-Faultless (outcome ∷ outcomes) left (here h) =
    rw (remaining-Faultless outcome left h) (remaining_all-nil outcomes)
remaining_all-Faultless (outcome ∷ outcomes) left (there t) =
    remaining_all-Faultless outcomes (remaining outcome left) t

-- The row stands where the steps performed since the first ones lead to.
record Stands (names done : List String) (outcomes : List (String → Option String))
    (left : List String) (after : PersistedWorkflow × List String) : Type 0 where
  whole : names ≡ (done ++ after.1) ++ remaining_all outcomes left
  at : IsAt (done ++ after.1) (remaining_all outcomes left) after.0

handle_all-Stands :
    (names : List String) (outcomes : List (String → Option String)) (done left : List String)
    (row : PersistedWorkflow)
    → names ≡ done ++ left
    → IsAt done left row
    → distinct names ≡ true
    → Stands names done outcomes left (handle_all names row outcomes)
unfolding handle_all remaining_all
handle_all-Stands names [] done left row e a h = record {
  whole = rw (append-nil done) e;
  at = rw (append-nil done) a;
}
handle_all-Stands names (outcome ∷ outcomes) done left row e a h =
    let run = handle outcome names row in
    let moved : Advances outcome done left run =
      rw e (handle-Advances outcome done left row a (rw e at h)) in
    let split : names ≡ (done ++ returning outcome left) ++ remaining outcome left =
      rw (append_assoc, returning-remaining) e in
    let ih =
      handle_all-Stands names outcomes (done ++ returning outcome left) (remaining outcome left)
        run.row split moved.at h in
    let later = (handle_all names run.row outcomes).1 in
    let joined : done ++ (run.performed ++ later) ≡ (done ++ returning outcome left) ++ later =
      ap (λ p. done ++ (p ++ later)) moved.performs ∙ sym (append_assoc done _ later) in
    record { whole = rw joined ih.whole; at = rw joined ih.at }

-- After any number of runs of a workflow from its first row on, whichever of its steps throw in which
-- run: the steps performed so far, each once and in the order of the definition, are those that the row
-- lists, the row names the next one, and its status is "completed" exactly when none is left. One run in
-- which no step throws is enough for that: then every step has been performed.
pub handle_all_once :
    (first : String) (rest : List String) (outcomes : List (String → Option String))
    → distinct (first ∷ rest) ≡ true
    → let (row, performed) = handle_all (first ∷ rest) (new_workflow first) outcomes in
      ((left : List String) × (first ∷ rest ≡ performed ++ left)
        × (row.completed_steps ≡ performed)
        × (row.next_step ≡ head_name left)
        × (is_completed row.status ≡ is_nil left))
      × (Any Faultless outcomes → (is_completed row.status ≡ true) × (performed ≡ first ∷ rest))
handle_all_once first rest outcomes d =
    let fresh : IsAt [] (first ∷ rest) (new_workflow first) = record {
      completed = refl;
      next = refl;
      ended = refl;
    } in
    let performed = (handle_all (first ∷ rest) (new_workflow first) outcomes).1 in
    let s =
      handle_all-Stands (first ∷ rest) outcomes [] (first ∷ rest) (new_workflow first) refl fresh
        d in
    (
      (remaining_all outcomes (first ∷ rest), s.whole, s.at.completed, s.at.next, s.at.ended),
      (λ some_run.
          let nothing = remaining_all-Faultless outcomes (first ∷ rest) some_run in
          (
            s.at.ended ∙ ap is_nil nothing,
            sym (append-nil _) ∙ sym (s.whole ∙ ap (λ l. performed ++ l) nothing),
          )),
    )
