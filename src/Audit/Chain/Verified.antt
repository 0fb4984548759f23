-- ===== src/Audit/Chain/Verified.antt =====
-- verifyAuditChain against what a chain of events is.
use legacy_vault.Base.{
  ℕ, ◌+◌, ◌≡◌, ◌≢◌, ◌↔◌, refl, ap, sym, ◌∙◌, String, true, List, [], ◌∷◌, ◌++◌, arith, decode_hex,
  same_items_iff, string_eq, nat_eq, ok, Result-cases, inl, inr,
}
use legacy_vault.Audit.Chain.{
  Digests, AuditEventInput, ChainedAuditEvent, canonical_input, event_digest, verify_from,
  verify_audit_chain,
}

module _ (d : Digests) (key : List ℕ) where
  -- The hash of the event, read as bytes, is the digest of its input.
  pub record IsSealed (e : ChainedAuditEvent) : Type 0 where
    pub digest : String
    pub digested : event_digest d e.input key ≡ ok digest
    pub same : decode_hex e.event_hash ≡ decode_hex digest

  -- Events numbered from n + 1 on, each sealed and naming the hash of the one before it.
  pub data IsChain : ℕ → String → List ChainedAuditEvent → Type 0 where
    done : {n : ℕ} {previous : String} → IsChain n previous []
    link :
        {n : ℕ} {previous : String} {e : ChainedAuditEvent} {es : List ChainedAuditEvent}
        → e.input.sequence ≡ n + 1
        → e.input.previous_hash ≡ previous
        → IsSealed e
        → IsChain (n + 1) e.event_hash es
        → IsChain n previous (e ∷ es)

  verify-IsChain :
      (n : ℕ) (previous : String) (es : List ChainedAuditEvent)
      → verify_from d key n previous es ≡ ok true
      → IsChain n previous es
  unfolding verify_from
  verify-IsChain n previous [] h = done
  verify-IsChain n previous (e ∷ es) h = elim (Result-cases (event_digest d e.input key)) [
    | inl (digest, digested) ↦
        link (ground arith) (ground (arith, string_eq.beq_iff e.input.previous_hash previous))
          (record {
            digest = digest;
            digested = digested;
            same = (same_items_iff (decode_hex e.event_hash) (decode_hex digest)).0 (ground arith);
          })
          (verify-IsChain (n + 1) e.event_hash es (ground arith))
    | inr (error, failed) ↦ absurd (ground arith)
  ]

  IsChain-verify :
      {n : ℕ} {previous : String} {es : List ChainedAuditEvent}
      → IsChain n previous es
      → verify_from d key n previous es ≡ ok true
  unfolding verify_from
  IsChain-verify done = refl
  IsChain-verify (link {n} {previous} {e} {es} s p sealed rest) = ground (
    arith,
    IsChain-verify rest,
    string_eq.beq_iff e.input.previous_hash previous,
    same_items_iff (decode_hex e.event_hash) (decode_hex sealed.digest),
  )

-- The check says true exactly for a chain from "GENESIS": the events are numbered from 1 on without a
-- gap, each names the hash of the one before it, and each hash is the digest of its event.
pub verify_audit_chain_iff :
    (d : Digests) (key : List ℕ) (es : List ChainedAuditEvent)
    → (verify_audit_chain d es key ≡ ok true) ↔ IsChain d key 0 "GENESIS" es
unfolding verify_audit_chain
verify_audit_chain_iff d key es = (verify-IsChain d key 0 "GENESIS" es, IsChain-verify d key)

-- Where a chain leads: its last number and hash.
abbrev pub end_of : ℕ → String → List ChainedAuditEvent → ℕ × String
end_of n previous [] = (n, previous)
end_of n previous (e ∷ es) = end_of (n + 1) e.event_hash es

module _ (d : Digests) (key : List ℕ) where
  pub IsChain-append :
      {n : ℕ} {previous : String} {xs : List ChainedAuditEvent} (ys : List ChainedAuditEvent)
      → IsChain d key n previous xs
      → IsChain d key (end_of n previous xs).0 (end_of n previous xs).1 ys
      → IsChain d key n previous (xs ++ ys)
  IsChain-append ys done c = c
  IsChain-append ys (link s p sealed rest) c = link s p sealed (IsChain-append ys rest c)

  pub IsChain-split :
      (xs ys : List ChainedAuditEvent) {n : ℕ} {previous : String}
      → IsChain d key n previous (xs ++ ys)
      → IsChain d key n previous xs
        × IsChain d key (end_of n previous xs).0 (end_of n previous xs).1 ys
  IsChain-split [] ys c = (done, c)
  IsChain-split (x ∷ xs) ys (link s p sealed rest) =
      let (front, back) = IsChain-split xs ys rest in (link s p sealed front, back)

-- A digest is the code of the event's canonical text.
event_digest-hmac :
    (d : Digests) (key : List ℕ) (i : AuditEventInput) {digest : String}
    → event_digest d i key ≡ ok digest
    → digest ≡ d.hmac key (canonical_input d i)
unfolding event_digest
event_digest-hmac d key i h = ground arith

IsChain-sealed :
    (d : Digests) (key : List ℕ) {n : ℕ} {previous : String} {e : ChainedAuditEvent}
    {es : List ChainedAuditEvent}
    → IsChain d key n previous (e ∷ es)
    → decode_hex e.event_hash ≡ decode_hex (d.hmac key (canonical_input d e.input))
IsChain-sealed d key {e} (link s p sealed rest) =
    sealed.same ∙ ap decode_hex (event_digest-hmac d key e.input sealed.digested)

-- In a verified chain, an event is exchanged for another that keeps its hash, where the codes of their
-- canonical texts under the key differ: then the chain is not verified any more.
pub verify_audit_chain_tampered :
    (d : Digests) (key : List ℕ) (front back : List ChainedAuditEvent) (e f : ChainedAuditEvent)
    → verify_audit_chain d (front ++ e ∷ back) key ≡ ok true
    → f.event_hash ≡ e.event_hash
    → decode_hex (d.hmac key (canonical_input d f.input))
      ≢ decode_hex (d.hmac key (canonical_input d e.input))
    → verify_audit_chain d (front ++ f ∷ back) key ≢ ok true
verify_audit_chain_tampered d key front back e f verified same differ again =
    let sealed =
      λ (g : ChainedAuditEvent) (v : verify_audit_chain d (front ++ g ∷ back) key ≡ ok true).
        IsChain-sealed d key
          (IsChain-split d key front (g ∷ back) ((verify_audit_chain_iff d key _).0 v)).1 in
    differ (sym (sealed f again) ∙ ap decode_hex same ∙ sealed e verified)
