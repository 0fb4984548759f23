-- ===== src/Audit/Store/Append.antt =====
-- append and verify: a verified log stays verified.
use legacy_vault.Base.{
  ℕ, ◌+◌, ◌≡◌, refl, ap, sym, ◌∙◌, String, true, Option, none, some, List, [], ◌∷◌, ◌++◌, map,
  arith, Dates, ok, length, length-append, ◌↔◌, inl, inr, Option-cases, Result-cases,
}
use mathlib.Core.List.{map-append}
use legacy_vault.Audit.Chain.{
  Digests, ChainedAuditEvent, AuditEventInput, event_digest, create_audit_event,
  pseudonymize_identifier,
}
use legacy_vault.Audit.Chain.Verified.{
  IsChain, done, link, end_of, IsChain-append, verify_audit_chain_iff,
}
use legacy_vault.Audit.Store.{
  AuditTenantContext, AppendInput, AuditRow, sequence_of, last_row, order_rows, next_number,
  last_hash, next_input, next_event, stored_event, append, read_event, read_events, verify,
}
use legacy_vault.Audit.Store.Order.{last?, last?-order_rows, order_rows-snoc, last_row-max}

-- The number and hash that the rows lead to, from a number and hash before them.
abbrev ends : ℕ → String → Option AuditRow → ℕ × String
ends n previous none = (n, previous)
ends n previous (some row) = (sequence_of row, row.event.event_hash)

ends-next : (o : Option AuditRow) → next_number o ≡ (ends 0 "GENESIS" o).0 + 1
ends-next none = refl
ends-next (some row) = refl

ends-hash : (o : Option AuditRow) → last_hash o ≡ (ends 0 "GENESIS" o).1
ends-hash none = refl
ends-hash (some row) = refl

last?-some : (y : AuditRow) (ys : List AuditRow) → (l : AuditRow) × (last? (y ∷ ys) ≡ some l)
last?-some y [] = (y, refl)
last?-some y (z ∷ zs) = last?-some z zs

module _ (d : Digests) (dates : Dates) (key : List ℕ) where
  chain_end :
      (rows : List AuditRow) {n : ℕ} {previous : String}
      → IsChain d key n previous (map (read_event d dates key) rows)
      → end_of n previous (map (read_event d dates key) rows) ≡ ends n previous (last? rows)
  chain_end [] c = refl
  chain_end (x ∷ []) (link s p sealed rest) = ground arith
  chain_end (x ∷ y ∷ ys) (link s p sealed rest) =
      let (l, e) = last?-some y ys in chain_end (y ∷ ys) rest ∙ rw e refl

  create-sealed :
      (input : AuditEventInput) (e : ChainedAuditEvent)
      → create_audit_event d input key ≡ ok e
      → (e.input ≡ input) × (event_digest d input key ≡ ok e.event_hash)
  unfolding create_audit_event
  create-sealed input e h = ground arith

  -- The event that is created continues the log.
  next_event_lem :
      (context : AuditTenantContext) (input : AppendInput) (rows : List AuditRow)
      (e : ChainedAuditEvent)
      → next_event d dates key context input rows ≡ ok e
      → (e.input.sequence ≡ next_number (last_row rows))
        × (e.input.previous_hash ≡ last_hash (last_row rows))
        × (e.input.occurred_at ≡ input.occurred_at)
        × (e.input.organization_id ≡ context.organization_id)
        × (e.input.household_id ≡ context.household_id)
        × (event_digest d e.input key ≡ ok e.event_hash)
  unfolding next_event
  next_event_lem context input rows e h =
      elim (Result-cases (pseudonymize_identifier d input.actor_id key)) [
        | inl (p, named) ↦
            let created : create_audit_event d (next_input context input rows p) key ≡ ok e =
              ground arith in
            let (same, sealed) = create-sealed (next_input context input rows p) e created in
            (ground arith, ground arith, ground arith, ground arith, ground arith, rw same sealed)
        | inr (error, failed) ↦ absurd (ground arith)
      ]

  append_lem :
      (uuid : String → String) (context : AuditTenantContext) (input : AppendInput)
      (rows after : List AuditRow) (e : ChainedAuditEvent)
      → append d dates key uuid context input rows ≡ ok (e, after)
      → (next_event d dates key context input rows ≡ ok e)
        × ((t : ℕ) × (dates.parse e.input.occurred_at ≡ some t)
            × (after
                ≡ rows
                  ++ record { id = input.id; event = stored_event d dates key uuid e; occurred = t }
                    ∷ []))
  unfolding append
  append_lem uuid context input rows after e h =
      elim (Result-cases (next_event d dates key context input rows)) [
        | inl (f, made) ↦ elim (Option-cases (dates.parse f.input.occurred_at)) [
          | inl absent ↦ absurd (ground arith)
          | inr (t, parsed) ↦
              let same : f ≡ e = ground arith in
              (ground arith, (t, rw (← same) parsed, ground arith))
        ]
        | inr (error, failed) ↦ absurd (ground arith)
      ]

  -- The log that was verified, one longer.
  appended-IsChain :
      (rows : List AuditRow) (new : AuditRow)
      → IsChain d key 0 "GENESIS" (read_events d dates key rows)
      → new.event.input.sequence ≡ next_number (last_row rows)
      → new.event.input.previous_hash ≡ last_hash (last_row rows)
      → event_digest d new.event.input key ≡ ok new.event.event_hash
      → dates.print new.occurred ≡ new.event.input.occurred_at
      → IsChain d key 0 "GENESIS" (read_events d dates key (rows ++ new ∷ []))
  unfolding read_events
  appended-IsChain rows new c s p sealed time =
      let same : read_event d dates key new ≡ new.event = ground arith in
      let ended = chain_end (order_rows rows) c ∙ ap (ends 0 "GENESIS") (last?-order_rows rows) in
      let last =
        link {e = new.event} (s ∙ ends-next (last_row rows) ∙ sym (ap (λ q. q.0 + 1) ended))
          (p ∙ ends-hash (last_row rows) ∙ sym (ap (λ q. q.1) ended))
          (record { digest = new.event.event_hash; digested = sealed; same = refl }) done in
      rw (order_rows-snoc rows new (last_row-max rows _ (omega arith)))
        (rw map-append (rw same (IsChain-append d key (new.event ∷ []) c last)))

verify_iff :
    (d : Digests) (dates : Dates) (key : List ℕ) (rows : List AuditRow)
    → (verify d dates key rows ≡ ok true) ↔ IsChain d key 0 "GENESIS" (read_events d dates key rows)
unfolding verify
verify_iff d dates key rows =
    let (to, from) = verify_audit_chain_iff d key (read_events d dates key rows) in
    ((λ h. to (ground arith)), (λ c. ground (arith, from c)))

-- Ids that are written as their columns give them back are stored as they are.
stored_same :
    (d : Digests) (dates : Dates) (key : List ℕ) (uuid : String → String) (e : ChainedAuditEvent)
    → uuid e.input.organization_id ≡ e.input.organization_id
    → uuid e.input.household_id ≡ e.input.household_id
    → stored_event d dates key uuid e ≡ e
stored_same d dates key uuid e o h = rw (o, h) refl

-- A log that verifies still verifies after an append that succeeds, if the time that was given is
-- written as toISOString writes it, and the ids of the organization and the household as a column of the
-- type uuid gives them back; the log is then one row longer.
pub append-verify :
    (d : Digests) (dates : Dates) (key : List ℕ) (uuid : String → String)
    (context : AuditTenantContext) (input : AppendInput) (rows after : List AuditRow)
    (e : ChainedAuditEvent)
    → verify d dates key rows ≡ ok true
    → append d dates key uuid context input rows ≡ ok (e, after)
    → uuid context.organization_id ≡ context.organization_id
    → uuid context.household_id ≡ context.household_id
    → ((t : ℕ) → dates.parse input.occurred_at ≡ some t → dates.print t ≡ input.occurred_at)
    → (verify d dates key after ≡ ok true) × (length after ≡ length rows + 1)
append-verify d dates key uuid context input rows after e verified appended o h canonical =
    let (made, (t, parsed, grown)) =
      append_lem d dates key uuid context input rows after e appended in
    let (s, p, time, organization, household, sealed) =
      next_event_lem d dates key context input rows e made in
    let new : AuditRow = record { id = input.id; event = e; occurred = t } in
    let same =
      stored_same d dates key uuid e (ap uuid organization ∙ (o ∙ sym organization))
        (ap uuid household ∙ (h ∙ sym household)) in
    let longer : after ≡ rows ++ new ∷ [] =
      grown
      ∙ ap
          (λ (f : ChainedAuditEvent).
            rows ++ record { id = input.id; event = f; occurred = t } ∷ [])
          same in
    let chain =
      appended-IsChain d dates key rows new ((verify_iff d dates key rows).0 verified) s p sealed
        (canonical t (ap dates.parse (sym time) ∙ parsed) ∙ sym time) in
    (
      (verify_iff d dates key after).1 (rw longer chain),
      ap length longer ∙ length-append rows (new ∷ []),
    )
