-- ===== src/Repository/Idempotency/Stored.antt =====
-- What the records hold, and a fresh record seen by its key.
use legacy_vault.Base.{
  ℕ, ◌≡◌, ◌≢◌, refl, sym, ap, ◌∙◌, String, true, Option, none, some, List, arith, Option-cases, inl,
  inr, string_eq,
}
use legacy_vault.Repository.Rows.{find_row, insert_row, update_row}
use legacy_vault.Repository.Rows.Lookup.{
  insert_row-view, update_row-Updated, update_row-none, put_at,
}
use legacy_vault.Repository.Idempotency.{IdempotencyRecord, key_of, reservation, answered, or_same}

-- The records hold the answer to a request.
pub record Holds {B : Type 0} (key hash : String) (body : B) (rows : List (IdempotencyRecord B))
    : Type 0 where
  pub row : IdempotencyRecord B
  pub there : find_row key_of key rows ≡ some row
  pub hashed : row.request_hash ≡ hash
  pub kept : row.response_body ≡ some body

pub some-none : {A : Type 0} (a : A) → some a ≢ none
some-none a h = cc

-- A fresh reservation with its answer, seen by key.
pub stored_view :
    {B : Type 0} (key hash : String) (code : Option ℕ) (body : B)
    (rows fresh : List (IdempotencyRecord B))
    → insert_row key_of (reservation key hash) rows ≡ some fresh
    → (k : String)
    → find_row key_of k
        (or_same fresh (update_row key_of key (λ _. true) (answered code body) fresh))
      ≡ put_at key_of key
          (answered code body (reservation key hash))
          (λ k. find_row key_of k rows)
          k
stored_view {B} key hash code body rows fresh e k =
    let (free, view) = insert_row-view key_of (reservation key hash) rows fresh e in
    let here : find_row key_of key fresh ≡ some (reservation {B = B} key hash) =
      ground (arith, view key, string_eq.beq_iff key key) in
    elim (Option-cases (update_row key_of key (λ _. true) (answered code body) fresh)) [
      | inl n ↦ ground (
        arith,
        update_row-none key_of key (λ _. true) (answered code body) fresh n (reservation key hash)
            here,
      )
      | inr ((r, after), u) ↦
          let up =
            update_row-Updated key_of key (λ _. true) (answered code body) fresh r after (λ _. refl)
              u in
          let was : reservation key hash ≡ up.row = ground (arith, up.was) in
          let now : r ≡ answered code body (reservation key hash) =
            up.changed ∙ ap (answered code body) (sym was) in
          let done : or_same fresh (update_row key_of key (λ _. true) (answered code body) fresh)
              ≡ after =
            ap (or_same fresh) u in
          ap (find_row key_of k) done ∙ ground (arith, up.view k, view k, now)
    ]
