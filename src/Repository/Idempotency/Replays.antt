-- ===== src/Repository/Idempotency/Replays.antt =====
-- A request that was answered is answered in the same way ever after.
use mathlib.Core.Path.{subst}
use legacy_vault.Base.{
  if◌then◌else◌, ◌≡◌, ◌≢◌, refl, sym, ◌∙◌, String, true, none, some, List, [], ◌∷◌, ok, err, arith,
  Bool-cases, Option-cases, Result-cases, inl, inr, string_eq, ◌==◌, if◌then◌else◌,
}
use legacy_vault.Repository.Transactions.{with_tenant}
use legacy_vault.Repository.Rows.{find_row, insert_row, update_row}
use legacy_vault.Repository.Rows.Lookup.{insert_row-view}
use legacy_vault.Repository.Idempotency.{
  IdempotencyRecord, Request, idempotent, key_of, reservation, answered, or_same,
}
use legacy_vault.Repository.Idempotency.Stored.{Holds, some-none, stored_view}

module _ {B S : Type 0} where
  -- The tables after some requests, each in its own transaction.
  unfoldable pub run_requests :
      List (Request B S) → List (IdempotencyRecord B) × S → List (IdempotencyRecord B) × S
  run_requests [] tables = tables
  run_requests (r ∷ requests) tables = run_requests requests (with_tenant (idempotent r) tables).1

  -- The cases of a request that is answered.
  pub data Answered (request : Request B S) (rows : List (IdempotencyRecord B)) (s : S) (body : B)
      (after : List (IdempotencyRecord B) × S) : Type 0 where
    replays :
        Holds request.idempotency_key request.request_hash body rows
        → after ≡ (rows, s)
        → Answered request rows s body after
    performs :
        {fresh : List (IdempotencyRecord B)} {t : S}
        → insert_row key_of (reservation request.idempotency_key request.request_hash) rows
          ≡ some fresh
        → request.operation s ≡ ok (body, t)
        → after ≡ (
          or_same fresh (
              update_row key_of request.idempotency_key
                (λ _. true)
                (answered request.status_code body)
                fresh),
          t,
        )
        → Answered request rows s body after

  pub idempotent-Answered :
      (request : Request B S) (rows : List (IdempotencyRecord B)) (s : S) (body : B)
      (after : List (IdempotencyRecord B) × S)
      → idempotent request (rows, s) ≡ ok (body, after)
      → Answered request rows s body after
  unfolding idempotent
  idempotent-Answered request rows s body after h =
      elim (Option-cases
        (insert_row key_of (reservation request.idempotency_key request.request_hash) rows)) [
          | inl n ↦ elim (Option-cases (find_row key_of request.idempotency_key rows)) [
            | inl f ↦ ground arith
            | inr (row, f) ↦ elim (Option-cases row.response_body) [
              | inl k ↦ ground arith
              | inr (b, k) ↦
                  replays
                    (record {
                      row = row;
                      there = f;
                      hashed =
                          ground (arith, string_eq.beq_iff row.request_hash request.request_hash);
                      kept = ground arith;
                    })
                    (ground arith)
            ]
          ]
          | inr (fresh, n) ↦ elim (Result-cases (request.operation s)) [
            | inl ((b, t), e) ↦ performs {t = t} n (ground arith) (ground arith)
            | inr (x, e) ↦ ground arith
          ]
        ]

  -- An answered request is held.
  Answered-Holds :
      {request : Request B S} {rows : List (IdempotencyRecord B)} {s : S} {body : B}
      {after : List (IdempotencyRecord B) × S}
      → Answered request rows s body after
      → Holds request.idempotency_key request.request_hash body after.0
  Answered-Holds {request} {rows} {body} (replays holds e) =
      subst (λ a. Holds request.idempotency_key request.request_hash body a.0) (sym e) holds
  Answered-Holds {request} {rows} {body} (performs {fresh} n p e) =
      let key = request.idempotency_key in
      let row = answered request.status_code body (reservation key request.request_hash) in
      let stored =
        or_same fresh
          (update_row key_of key (λ _. true) (answered request.status_code body) fresh) in
      let view = stored_view key request.request_hash request.status_code body rows fresh n key in
      let there : find_row key_of key stored ≡ some row =
        ground (arith, view, string_eq.beq_iff key key) in
      subst (λ a. Holds key request.request_hash body a.0) (sym e)
        (record { row = row; there = there; hashed = refl; kept = refl })

  -- A key that is held is known, and its answer depends on the hash alone.
  known :
      (key hash : String) (body : B) (r : Request B S) (rows : List (IdempotencyRecord B)) (s : S)
      → r.idempotency_key ≡ key
      → Holds key hash body rows
      → idempotent r (rows, s)
        ≡ (if r.request_hash == hash then ok (body, (rows, s)) else err r.conflict)
  unfolding idempotent
  known key hash body r rows s same h =
      let at_key : find_row key_of r.idempotency_key rows ≡ some h.row =
        subst (λ k. find_row key_of k rows ≡ some h.row) (sym same) h.there in
      elim (Option-cases (insert_row key_of (reservation r.idempotency_key r.request_hash) rows)) [
        | inl n ↦ ground (
          arith,
          at_key,
          h.hashed,
          h.kept,
          string_eq.beq_iff h.row.request_hash r.request_hash,
          string_eq.beq_iff r.request_hash hash,
        )
        | inr (fresh, n) ↦ absurd (
            some-none h.row (
              sym at_key
              ∙ (insert_row-view key_of (reservation r.idempotency_key r.request_hash) rows fresh
                  n).0))
      ]

  -- Whatever a request does, what the records hold they keep.
  call-Holds :
      (key hash : String) (body : B) (r : Request B S) (rows : List (IdempotencyRecord B)) (s : S)
      → Holds key hash body rows
      → Holds key hash body (with_tenant (idempotent r) (rows, s)).1.0
  call-Holds key hash body r rows s h = elim (Result-cases (idempotent r (rows, s))) [
    | inr (x, e) ↦
        let same : (with_tenant (idempotent r) (rows, s)).1 ≡ (rows, s) = ground arith in
        subst (λ t. Holds key hash body t.0) (sym same) h
    | inl ((b, after), e) ↦
        let left : (with_tenant (idempotent r) (rows, s)).1 ≡ after = ground arith in
        subst (λ t. Holds key hash body t.0) (sym left)
          (elim (idempotent-Answered r rows s b after e) [
            | replays holds same ↦ subst (λ t. Holds key hash body t.0) (sym same) h
            | performs {fresh} n p same ↦
                let mine = r.idempotency_key in
                let stored =
                  or_same fresh
                    (update_row key_of mine (λ _. true) (answered r.status_code b) fresh) in
                let view = stored_view mine r.request_hash r.status_code b rows fresh n key in
                let free : find_row key_of mine rows ≡ none =
                  (insert_row-view key_of (reservation mine r.request_hash) rows fresh n).0 in
                let there : find_row key_of key stored ≡ some h.row =
                  elim (Bool-cases (mine == key)) [
                    | inl e ↦ absurd (
                        some-none h.row (
                          (sym h.there)
                          ∙ subst (λ k. find_row key_of k rows ≡ none)
                              ((string_eq.beq_iff mine key).0 e) free))
                    | inr e ↦ view ∙ ground (arith, h.there)
                  ] in
                subst (λ t. Holds key hash body t.0) (sym same)
                  (record { row = h.row; there = there; hashed = h.hashed; kept = h.kept })
          ])
  ]

  run_requests-Holds :
      (key hash : String) (body : B) (requests : List (Request B S))
      (rows : List (IdempotencyRecord B)) (s : S)
      → Holds key hash body rows
      → Holds key hash body (run_requests requests (rows, s)).0
  unfolding run_requests
  run_requests-Holds key hash body [] rows s h = h
  run_requests-Holds key hash body (r ∷ requests) rows s h =
      let (rows', s') = (with_tenant (idempotent r) (rows, s)).1 in
      run_requests-Holds key hash body requests rows' s' (call-Holds key hash body r rows s h)

  -- A request that was answered once is answered in the same way after any further requests, with any
  -- keys and whatever they do to the tables, and changes nothing then; and from then on its key, with
  -- another hash, is refused and nothing is changed.
  pub idempotent_once :
      (request : Request B S) (tables after : List (IdempotencyRecord B) × S) (body : B)
      (later : List (Request B S))
      → idempotent request tables ≡ ok (body, after)
      → let now = run_requests later after in
        (with_tenant (idempotent request) now ≡ (ok body, now))
        × ((other : Request B S)
            → other.idempotency_key ≡ request.idempotency_key
            → other.request_hash ≢ request.request_hash
            → with_tenant (idempotent other) now ≡ (err other.conflict, now))
  idempotent_once request tables after body later h =
      let now = run_requests later after in
      let held =
        run_requests-Holds request.idempotency_key request.request_hash body later after.0 after.1
          (Answered-Holds (idempotent-Answered request tables.0 tables.1 body after h)) in
      (
        ground (
          arith,
          known _ _ body request now.0 now.1 refl held,
          string_eq.beq_iff request.request_hash request.request_hash,
        ),
        (λ other same differs. ground (
          arith,
          known _ _ body other now.0 now.1 same held,
          string_eq.beq_iff other.request_hash request.request_hash,
        )),
      )
