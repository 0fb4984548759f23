-- ===== src/Worker/Handler/Steps.antt =====
-- The handler of persisted workflows: what one run does from a row between two steps.
use legacy_vault.Base.{
  ◌+◌, ◌≡◌, inl, inr, refl, sym, ap, ◌∙◌, String, true, false, not, Option, none, some, List, [],
  ◌∷◌, ◌++◌, arith, contains, distinct, is_nil, is_some, All, string_eq, nat_eq, Option-cases,
}
use legacy_vault.Worker.Handler.Names.{contains-middle, append-nil, snoc-append, All-contained}
use legacy_vault.Worker.Handler.{
  PersistedWorkflow, is_completed, complete_workflow_step, record_workflow_failure, HandlerRun,
  head_name, run_steps, handle, perform, throws, status_after, record_thrown,
}

-- The row stands between the steps that are done and those that are left.
pub record IsAt (done left : List String) (row : PersistedWorkflow) : Type 0 where
  pub completed : row.completed_steps ≡ done
  pub next : row.next_step ≡ head_name left
  pub ended : is_completed row.status ≡ is_nil left

-- The first of the steps that all return, and those from the first that throws on.
abbrev pub returning : (String → Option String) → List String → List String
returning outcome [] = []
returning outcome (name ∷ names) =
    let rest = returning outcome names in
    elim (outcome name) [ none ↦ name ∷ rest | some error ↦ [] ]

abbrev pub remaining : (String → Option String) → List String → List String
remaining outcome [] = []
remaining outcome (name ∷ names) =
    let rest = remaining outcome names in
    elim (outcome name) [ none ↦ rest | some error ↦ name ∷ names ]

pub returning-remaining :
    (outcome : String → Option String) (names : List String)
    → returning outcome names ++ remaining outcome names ≡ names
returning-remaining outcome [] = refl
returning-remaining outcome (name ∷ names) = ground (arith, returning-remaining outcome names)

module _ (outcome : String → Option String) where
  -- What a run does from a row between the steps that are done and those that are left.
  pub record Advances (done left : List String) (run : HandlerRun) : Type 0 where
    pub at : IsAt (done ++ returning outcome left) (remaining outcome left) run.row
    pub performs : run.performed ≡ returning outcome left
    pub fails : is_some run.thrown ≡ not (is_nil (remaining outcome left))

  run_steps-done :
      (xs names : List String) (row : PersistedWorkflow)
      → All (λ n. contains row.completed_steps n ≡ true) xs
      → run_steps outcome (xs ++ names) row ≡ run_steps outcome names row
  unfolding run_steps
  run_steps-done [] names row h = refl
  run_steps-done (x ∷ xs) names row (h, hs) = ground (arith, run_steps-done xs names row hs)

  next_row : (name : String) (names : List String) → PersistedWorkflow → PersistedWorkflow
  next_row name names row = record {
    status = status_after (head_name names);
    completed_steps = row.completed_steps ++ name ∷ [];
    next_step = head_name names;
    version = row.version + 1;
    last_error_class = none;
  }

  status_after_ended :
      (names : List String) → is_completed (status_after (head_name names)) ≡ is_nil names
  status_after_ended [] = refl
  status_after_ended (name ∷ names) = refl

  next_row-IsAt :
      (done names : List String) (name : String) (row : PersistedWorkflow)
      → IsAt done (name ∷ names) row
      → IsAt (done ++ name ∷ []) names (next_row name names row)
  unfolding next_row
  next_row-IsAt done names name row a = record {
    completed = ap (λ xs. xs ++ name ∷ []) a.completed;
    next = refl;
    ended = status_after_ended names;
  }

  complete_lem :
      (done names : List String) (name : String) (row : PersistedWorkflow)
      → IsAt done (name ∷ names) row
      → contains done name ≡ false
      → complete_workflow_step row.version name (head_name names) row
        ≡ some (next_row name names row)
  unfolding complete_workflow_step next_row
  complete_lem done names name row a h =
      ground (arith, a.completed, a.ended, nat_eq.beq_iff row.version row.version)

  module _ (name : String) (names done : List String) (row : PersistedWorkflow)
      (a : IsAt done (name ∷ names) row) (new : contains done name ≡ false) where
    run_steps_performed :
        outcome name ≡ none
        → run_steps outcome (name ∷ names) row
          ≡ perform name (run_steps outcome names (next_row name names row))
    unfolding run_steps
    run_steps_performed h = ground (
      arith,
      complete_lem done names name row a new,
      a.completed,
      a.next,
      string_eq.beq_iff name name,
    )

    run_steps_thrown :
        (error : String)
        → outcome name ≡ some error
        → run_steps outcome (name ∷ names) row ≡ throws row error
    unfolding run_steps
    run_steps_thrown error h = ground (arith, a.completed, a.next, string_eq.beq_iff name name)

  Advances-performed :
      (name : String) (names done : List String) (run : HandlerRun)
      → outcome name ≡ none
      → Advances (done ++ name ∷ []) names run
      → Advances done (name ∷ names) (perform name run)
  Advances-performed name names done run h a =
      let r : returning outcome (name ∷ names) ≡ name ∷ returning outcome names = ground arith in
      let m : remaining outcome (name ∷ names) ≡ remaining outcome names = ground arith in
      record {
        at = rw (m, r) (rw (snoc-append done (returning outcome names) name) at a.at);
        performs = ap (name ∷◌) a.performs ∙ sym r;
        fails = rw m a.fails;
      }

  Advances-thrown :
      (name error : String) (names done : List String) (row : PersistedWorkflow)
      → outcome name ≡ some error
      → IsAt done (name ∷ names) row
      → Advances done (name ∷ names) (throws row error)
  Advances-thrown name error names done row h a =
      let r : returning outcome (name ∷ names) ≡ [] = ground arith in
      let m : remaining outcome (name ∷ names) ≡ name ∷ names = ground arith in
      record { at = rw (m, r, append-nil) a; performs = sym r; fails = rw m refl }

  run_steps-Advances :
      (left done : List String) (row : PersistedWorkflow)
      → IsAt done left row
      → distinct (done ++ left) ≡ true
      → Advances done left (run_steps outcome left row)
  unfolding run_steps
  run_steps-Advances [] done row a h = record {
    at = rw (append-nil done) a;
    performs = refl;
    fails = refl;
  }
  run_steps-Advances (name ∷ names) done row a h =
      let new = contains-middle done names name h in
      elim (Option-cases (outcome name)) [
        | inl e ↦ rw (run_steps_performed name names done row a new e) (
            Advances-performed name names done _ e (
              run_steps-Advances names (done ++ name ∷ []) (next_row name names row)
                (next_row-IsAt done names name row a) (rw (snoc-append done names name) h)))
        | inr (error, e) ↦
            rw (run_steps_thrown name names done row a new error e)
              (Advances-thrown name error names done row e a)
      ]

  failure-IsAt :
      (done left : List String) (row : PersistedWorkflow) (error : String)
      → is_nil left ≡ false
      → IsAt done left row
      → IsAt done left (record_workflow_failure error row)
  unfolding record_workflow_failure
  failure-IsAt done left row error h a = record {
    completed = ground (arith, a.completed, a.ended);
    next = ground (arith, a.next, a.ended);
    ended = ground (arith, a.ended);
  }

  record_thrown-Advances :
      (done left : List String) (row : PersistedWorkflow) (performed : List String)
      (thrown : Option String)
      → Advances done left (record { row = row; performed = performed; thrown = thrown })
      → Advances done left
          (record_thrown (record { row = row; performed = performed; thrown = thrown }))
  record_thrown-Advances done left row performed none a = a
  record_thrown-Advances done left row performed (some error) a =
      let more : is_nil (remaining outcome left) ≡ false = ground (arith, a.fails) in
      record { at = failure-IsAt _ _ row error more a.at; performs = a.performs; fails = a.fails }

  pub handle-Advances :
      (done left : List String) (row : PersistedWorkflow)
      → IsAt done left row
      → distinct (done ++ left) ≡ true
      → Advances done left (handle outcome (done ++ left) row)
  unfolding handle
  handle-Advances done [] row a h =
      rw a.ended (record { at = rw (append-nil done) a; performs = refl; fails = refl })
  handle-Advances done (name ∷ names) row a h =
      let same =
        run_steps-done done (name ∷ names) row
          (rw a.completed (All-contained done done (λ n k. k))) in
      let run = run_steps outcome (name ∷ names) row in
      rw (a.ended, same)
        (record_thrown-Advances done (name ∷ names) run.row run.performed run.thrown
          (run_steps-Advances (name ∷ names) done row a h))
