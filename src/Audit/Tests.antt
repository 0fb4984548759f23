-- ===== src/Audit/Tests.antt =====
-- The audit chain and the store at concrete events, with a code that tells two texts apart.
use legacy_vault.Base.{
  ℕ, ◌≤◌, none, zero, suc, ◌+◌, ◌≡◌, ◌≢◌, ◌↔◌, refl, List, [], ◌∷◌, ◌++◌, true, ok, length,
  if◌then◌else◌, ltb, utf16_length, arith, decode_hex, text_prefix, same_items,
}
use legacy_vault.Base.Json.{concat, canonicalize}
use legacy_vault.Samples.{sample_dates, noon, day_one}
use legacy_vault.Audit.Chain.{
  Digests, MetaValue, ChainedAuditEvent, verify_audit_chain, canonical_input, create_audit_event,
  event_digest, assert_metadata, pseudonymize_identifier, is_forbidden_key,
}
use legacy_vault.Audit.Chain.Verified.{IsChain, verify_audit_chain_iff, verify_audit_chain_tampered}
use legacy_vault.Audit.Store.{
  AuditTenantContext, AuditRow, AppendInput, append, verify, next_event, last_row, read_events,
  order_rows, insert_row, read_verified, VerifiedAuditPage,
}
use legacy_vault.Audit.Store.Pages.{Continues, read_verified-Continues}
use legacy_vault.Audit.Store.Append.{append-verify}

abbrev zeros : ℕ → List ℕ
zeros zero = []
zeros (suc n) = 0 ∷ zeros n

abbrev key : List ℕ
key = zeros 32

-- The code of a text only tells short texts from long ones.
abbrev sample_digests : Digests
sample_digests = record {
  engine = record { quote = λ s. concat "'" (concat s "'"); precedes = λ a b. true };
  number = λ n. if ltb 1 n then "2" else "1";
  hmac = λ k s. if ltb 210 (utf16_length s) then "ab" else "12";
}

abbrev input : AppendInput
input = record {
  id = "row";
  occurred_at = noon;
  actor_id = "anna";
  action = "read";
  outcome = "allowed";
  metadata = ("kind", MetaValue.text "x") ∷ [];
}

abbrev context : AuditTenantContext
context = record { organization_id = "o"; household_id = "h" }

abbrev first_event : ChainedAuditEvent
first_event = record {
  input = record {
    organization_id = "o";
    household_id = "h";
    sequence = 1;
    occurred_at = noon;
    actor_pseudonym = "12";
    action = "read";
    outcome = "allowed";
    metadata = ("kind", MetaValue.text "x") ∷ [];
    previous_hash = "GENESIS";
  };
  event_hash = "12";
}

-- The event with a longer action.
abbrev forged : ChainedAuditEvent
forged = record first_event {
  input = record first_event.input { action = "read and more, read and more, read and more" };
}

first_verifies : verify_audit_chain sample_digests (first_event ∷ []) key ≡ ok true
unfolding verify_audit_chain event_digest assert_metadata is_forbidden_key utf16_length same_items
    decode_hex canonical_input canonicalize
first_verifies = refl

first_appends :
    append sample_digests sample_dates key (λ id. id) context input []
    ≡ ok (first_event, record { id = "row"; event = first_event; occurred = day_one } ∷ [])
unfolding append next_event pseudonymize_identifier create_audit_event last_row event_digest
    assert_metadata is_forbidden_key utf16_length text_prefix canonical_input canonicalize
first_appends = refl

nothing_verifies : verify sample_digests sample_dates key [] ≡ ok true
unfolding verify verify_audit_chain read_events order_rows
nothing_verifies = refl

verify_audit_chain_iff_example :
    (verify_audit_chain sample_digests (first_event ∷ []) key ≡ ok true)
    ↔ IsChain sample_digests key 0 "GENESIS" (first_event ∷ [])
verify_audit_chain_iff_example = verify_audit_chain_iff sample_digests key (first_event ∷ [])

codes_differ :
    decode_hex (sample_digests.hmac key (canonical_input sample_digests forged.input))
    ≢ decode_hex (sample_digests.hmac key (canonical_input sample_digests first_event.input))
unfolding decode_hex canonical_input canonicalize utf16_length
codes_differ h = ground arith

verify_audit_chain_tampered_example :
    verify_audit_chain sample_digests ([] ++ forged ∷ []) key ≢ ok true
verify_audit_chain_tampered_example =
    verify_audit_chain_tampered sample_digests key [] [] first_event forged first_verifies refl
      codes_differ

abbrev first_rows : List AuditRow
first_rows = record { id = "row"; event = first_event; occurred = day_one } ∷ []

append-verify_example :
    (verify sample_digests sample_dates key first_rows ≡ ok true)
    × (length first_rows ≡ length {A = AuditRow} [] + 1)
append-verify_example =
    append-verify sample_digests sample_dates key (λ id. id) context input [] _ first_event
      nothing_verifies first_appends refl refl (λ t h. ground arith)

abbrev first_page : VerifiedAuditPage
first_page = record { events = first_event ∷ []; next_sequence = none }

first_reads : read_verified sample_digests sample_dates key 0 1 first_rows ≡ ok first_page
unfolding read_verified verify_audit_chain event_digest assert_metadata is_forbidden_key
    utf16_length same_items decode_hex canonical_input canonicalize read_events order_rows
    insert_row
first_reads = refl

read_verified-Continues_example :
    IsChain sample_digests key 0 "GENESIS" (read_events sample_digests sample_dates key first_rows)
    × (length first_page.events ≤ 1)
    × Continues 0
        (read_events sample_digests sample_dates key first_rows)
        first_page.events
        first_page.next_sequence
read_verified-Continues_example =
    read_verified-Continues sample_digests sample_dates key 0 1 first_rows first_page first_reads
