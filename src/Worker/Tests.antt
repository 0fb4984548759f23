-- ===== src/Worker/Tests.antt =====
-- The handler at a concrete workflow, whose second step throws in the first run.
use legacy_vault.Base.{
  ◌≡◌, refl, String, true, Option, none, some, List, [], ◌∷◌, ◌++◌, is_nil, Any, if◌then◌else◌,
  ◌==◌, string_eq,
}
use legacy_vault.Worker.Handler.{new_workflow, head_name, is_completed}
use legacy_vault.Worker.Handler.Once.{handle_all, Faultless, handle_all_once}

abbrev flaky : String → Option String
flaky name = if name == "store" then some "TimeoutError" else none

abbrev fine : String → Option String
fine name = none

handle_all_once_example :
    let (row, performed) =
      handle_all ("collect" ∷ "store" ∷ []) (new_workflow "collect") (flaky ∷ fine ∷ []) in
    ((left : List String) × ("collect" ∷ "store" ∷ [] ≡ performed ++ left)
      × (row.completed_steps ≡ performed)
      × (row.next_step ≡ head_name left)
      × (is_completed row.status ≡ is_nil left))
    × (Any Faultless (flaky ∷ fine ∷ [])
        → (is_completed row.status ≡ true) × (performed ≡ "collect" ∷ "store" ∷ []))
handle_all_once_example = handle_all_once "collect" ("store" ∷ []) (flaky ∷ fine ∷ []) refl
