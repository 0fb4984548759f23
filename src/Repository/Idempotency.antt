-- ===== src/Repository/Idempotency.antt =====
-- packages/database/src/repository.ts: idempotency keys, in the records of one household or one account.
-- The hash of a request is SHA-256 of its JSON text: an argument. A response is kept as the value that its
-- JSON text stands for; the column expires_at is written and never read.
pub mod Stored
pub mod Replays
use legacy_vault.Base.{
  ℕ, String, Bool, true, false, not, Option, none, some, List, ◌==◌, string_eq, Result, ok, err,
  ◌>>=◌, ◌>>◌, ok_or, throw_if,
}
use legacy_vault.Repository.Transactions.{RepositoryError, Operation, idempotency_conflict}
use legacy_vault.Repository.Rows.{find_row, insert_row, update_row}

pub record IdempotencyRecord (B : Type 0) : Type 0 where
  pub idempotency_key : String
  pub request_hash : String
  pub status_code : Option ℕ
  pub response_body : Option B

-- The table after a statement, or before it if no row matched.
abbrev pub or_same : {R : Type 0} → List R → Option (R × List R) → List R
or_same rows none = rows
or_same rows (some (row, after)) = after

-- What `reserveIdempotency` answers.
pub record Reservation (B : Type 0) : Type 0 where
  pub replay : Bool
  pub status_code : Option ℕ
  pub response_body : Option B

-- How the methods that change members and documents use a key: the operation runs under a fresh key
-- and its response is kept; a known key answers the kept response.
pub record Request (B S : Type 0) : Type 0 where
  pub idempotency_key : String
  pub request_hash : String
  pub status_code : Option ℕ
  pub conflict : RepositoryError
  pub processing : RepositoryError
  pub operation : Operation S B

module _ {B : Type 0} where
  abbrev pub key_of : IdempotencyRecord B → String
  key_of record_ = record_.idempotency_key

  abbrev pub reservation : String → String → IdempotencyRecord B
  reservation key hash = record {
    idempotency_key = key;
    request_hash = hash;
    status_code = none;
    response_body = none;
  }

  abbrev stored : IdempotencyRecord B → Reservation B
  stored row = elim row.status_code [
    | none ↦ record { replay = true; status_code = none; response_body = none }
    | some code ↦ record {
      replay = true;
      status_code = some code;
      response_body = row.response_body;
    }
  ]

  unfoldable pub reserve_idempotency :
      String → String → Operation (List (IdempotencyRecord B)) (Reservation B)
  reserve_idempotency key hash rows = elim (insert_row key_of (reservation key hash) rows) [
    | some after ↦ ok (record { replay = false; status_code = none; response_body = none }, after)
    | none ↦ do
      row ← ok_or idempotency_conflict (find_row key_of key rows)
      throw_if (not (row.request_hash == hash)) idempotency_conflict
      ok (stored row, rows)
  ]

  abbrev is_open : IdempotencyRecord B → Bool
  is_open row = elim row.status_code [ none ↦ true | some _ ↦ false ]

  abbrev pub completed : ℕ → B → IdempotencyRecord B → IdempotencyRecord B
  completed code body row = record row { status_code = some code; response_body = some body }

  unfoldable pub complete_idempotency :
      String → ℕ → B → Operation (List (IdempotencyRecord B)) (Unit {0})
  complete_idempotency key code body rows =
      ok (tt, or_same rows (update_row key_of key is_open (completed code body) rows))

  abbrev pub answered : Option ℕ → B → IdempotencyRecord B → IdempotencyRecord B
  answered code body row = record row { status_code = code; response_body = some body }

  abbrev replayed : {S : Type 0} → Request B S → Operation (List (IdempotencyRecord B) × S) B
  replayed request (rows, s) = do
    row ← ok_or request.conflict (find_row key_of request.idempotency_key rows)
    throw_if (not (row.request_hash == request.request_hash)) request.conflict
    body ← ok_or request.processing row.response_body
    ok (body, (rows, s))

  unfoldable pub idempotent :
      {S : Type 0} → Request B S → Operation (List (IdempotencyRecord B) × S) B
  idempotent request (rows, s) =
      elim (insert_row key_of (reservation request.idempotency_key request.request_hash) rows) [
        | none ↦ replayed request (rows, s)
        | some fresh ↦ do
          (body, after) ← request.operation s
          ok (
            body,
            (
              or_same fresh (
                  update_row key_of request.idempotency_key (λ _. true)
                    (answered request.status_code body) fresh),
              after,
            ),
          )
      ]
