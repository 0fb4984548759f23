-- ===== src/Audit/Store/Pages.antt =====
-- readVerified: what a page holds, and where the next one begins.
use legacy_vault.Base.{
  ℕ, zero, suc, ◌+◌, ◌≤◌, ◌<◌, ◌≡◌, refl, ap, sym, ◌∙◌, String, true, Option, none, some, List, [],
  ◌∷◌, ◌++◌, arith, filter, take, drop, length, length-take, ltb, leb, Dates, ok, Bool-cases, inl,
  inr,
}
use mathlib.Core.Path.{subst}
use legacy_vault.Audit.Chain.{Digests, ChainedAuditEvent, verify_audit_chain}
use legacy_vault.Audit.Chain.Verified.{IsChain, done, link, verify_audit_chain_iff}
use legacy_vault.Audit.Store.{
  AuditRow, VerifiedAuditPage, read_events, read_verified, last_sequence, page_of,
}

-- The events after a number.
abbrev pub following : ℕ → List ChainedAuditEvent → List ChainedAuditEvent
following after events = filter (λ e. ltb after e.input.sequence) events

module _ (d : Digests) (key : List ℕ) where
  -- A chain from n on has only numbers after n.
  following-all :
      (m : ℕ) (es : List ChainedAuditEvent) {n : ℕ} {previous : String}
      → IsChain d key n previous es
      → m ≤ n
      → following m es ≡ es
  following-all m [] c h = refl
  following-all m (e ∷ es) (link s p sealed rest) h =
      ground (arith, s, following-all m es rest (omega arith))

  -- Those that it has after n + k are those behind its first k.
  following-drop :
      (k m : ℕ) (es : List ChainedAuditEvent) {n : ℕ} {previous : String}
      → IsChain d key n previous es
      → m ≡ n + k
      → following m es ≡ drop k es
  following-drop zero m es c h = following-all m es c (omega arith)
  following-drop (suc k) m [] c h = refl
  following-drop (suc k) m (e ∷ es) (link s p sealed rest) h =
      ground (arith, s, h, following-drop k m es rest (omega arith))

  drop-IsChain :
      (k : ℕ) (es : List ChainedAuditEvent) {n : ℕ} {previous : String}
      → IsChain d key n previous es
      → k ≤ length es
      → (hash : String) × IsChain d key (n + k) hash (drop k es)
  drop-IsChain zero es {n} {previous} c h =
      (previous, subst (λ m. IsChain d key m previous es) (omega arith) c)
  drop-IsChain (suc k) [] c h = absurd (omega arith)
  drop-IsChain (suc k) (e ∷ es) {n} (link s p sealed rest) h =
      let (hash, c) = drop-IsChain k es rest (omega arith) in
      (hash, subst (λ m. IsChain d key m hash (drop k es)) (omega arith) c)

  module _ (dates : Dates) where
    last_sequence-take :
        (k : ℕ) (es : List ChainedAuditEvent) {n : ℕ} {previous : String}
        → IsChain d key n previous es
        → k < length es
        → last_sequence d dates key (take (suc k) es) ≡ some (n + k + 1)
    last_sequence-take k [] c h = absurd (omega arith)
    last_sequence-take zero (e ∷ es) (link s p sealed rest) h = ap some (omega arith)
    last_sequence-take (suc k) (e ∷ []) (link s p sealed rest) h = absurd (omega arith)
    last_sequence-take (suc k) (e ∷ f ∷ es) (link s p sealed rest) h =
        last_sequence-take k (f ∷ es) rest (omega arith) ∙ ap some (omega arith)

take-drop : (k : ℕ) (es : List ChainedAuditEvent) → take k es ++ drop k es ≡ es
take-drop zero es = refl
take-drop (suc k) [] = refl
take-drop (suc k) (e ∷ es) = ap (e ∷◌) (take-drop k es)

take-all : (k : ℕ) (es : List ChainedAuditEvent) → length es ≤ k → take k es ≡ es
take-all zero [] h = refl
take-all zero (e ∷ es) h = absurd (omega arith)
take-all (suc k) [] h = refl
take-all (suc k) (e ∷ es) h = ap (e ∷◌) (take-all k es (omega arith))

drop-all : (k : ℕ) (es : List ChainedAuditEvent) → length es ≤ k → drop k es ≡ []
drop-all zero [] h = refl
drop-all zero (e ∷ es) h = absurd (omega arith)
drop-all (suc k) [] h = refl
drop-all (suc k) (e ∷ es) h = drop-all k es (omega arith)

following-following :
    (m n : ℕ) (es : List ChainedAuditEvent) → m ≤ n → following n (following m es) ≡ following n es
following-following m n [] h = refl
following-following m n (e ∷ es) h = ground (arith, following-following m n es h)

-- What the number that a page gives for the next one means.
abbrev pub Continues : (after : ℕ) (log page : List ChainedAuditEvent) → Option ℕ → Type 0
Continues after log page none = following after log ≡ page
Continues after log page (some next) =
    (after < next) × (following after log ≡ page ++ following next log)

module _ (d : Digests) (dates : Dates) (key : List ℕ) (after k : ℕ)
    (log : List ChainedAuditEvent) where
  Page : VerifiedAuditPage
  Page = page_of d dates key after (suc k) log

  Page-more :
      {hash : String}
      → IsChain d key after hash (following after log)
      → length (take (suc k) (following after log)) < length (following after log)
      → Continues after log Page.events Page.next_sequence
  unfolding Page
  Page-more c h =
      let l = length-take (suc k) (following after log) in
      let next = last_sequence-take d key dates k (following after log) c (omega arith) in
      let rest =
        following-drop d key (suc k) (after + k + 1) (following after log) c (omega arith) in
      let number : Page.next_sequence ≡ some (after + k + 1) = ground (arith, next, h) in
      let whole =
        sym (take-drop (suc k) (following after log))
        ∙ ap (λ l. Page.events ++ l)
            (sym rest ∙ following-following after (after + k + 1) log (omega arith)) in
      subst (λ o. Continues after log Page.events o) (sym number) (omega arith, whole)

  Page-last :
      length (following after log) ≤ length (take (suc k) (following after log))
      → Continues after log Page.events Page.next_sequence
  unfolding Page
  Page-last h =
      let l = length-take (suc k) (following after log) in
      let number : Page.next_sequence ≡ none = ground (arith, h) in
      subst (λ o. Continues after log Page.events o) (sym number)
        (sym (take-all (suc k) (following after log) (omega arith)))

  Page-Continues :
      {hash : String}
      → IsChain d key after hash (following after log)
      → Continues after log Page.events Page.next_sequence
  Page-Continues c =
      elim (Bool-cases
        (ltb (length (take (suc k) (following after log))) (length (following after log)))) [
          | inl e ↦ Page-more c (ground arith)
          | inr e ↦ Page-last (ground arith)
        ]

following-IsChain :
    (d : Digests) (key : List ℕ) (after : ℕ) (log : List ChainedAuditEvent)
    → IsChain d key 0 "GENESIS" log
    → (hash : String) × IsChain d key after hash (following after log)
following-IsChain d key after log c =
    let dropped = following-drop d key after after log c (omega arith) in
    elim (Bool-cases (leb after (length log))) [
      | inl e ↦
          let (hash, rest) = drop-IsChain d key after log c (ground arith) in
          (
            hash,
            subst (λ es. IsChain d key after hash es) (sym dropped)
                (subst (λ m. IsChain d key m hash (drop after log)) (omega arith) rest),
          )
      | inr e ↦ (
        "GENESIS",
        subst (λ es. IsChain d key after "GENESIS" es)
            (sym (dropped ∙ drop-all after log (ground arith))) done,
      )
    ]

-- A page is read only from a log that verifies; it holds at most as many events as were asked for. If it
-- names no next number, it is all of the events after the given one; if it names one, that one is
-- greater, and the page and the events after it make up the events after the given one. So pages
-- read one after another make up the log, without gaps and without repetitions.
pub read_verified-Continues :
    (d : Digests) (dates : Dates) (key : List ℕ) (after limit : ℕ) (rows : List AuditRow)
    (page : VerifiedAuditPage)
    → read_verified d dates key after limit rows ≡ ok page
    → IsChain d key 0 "GENESIS" (read_events d dates key rows)
      × (length page.events ≤ limit)
      × Continues after (read_events d dates key rows) page.events page.next_sequence
unfolding read_verified Page
read_verified-Continues d dates key after zero rows page h = absurd (ground arith)
read_verified-Continues d dates key after (suc k) rows page h =
    let log = read_events d dates key rows in
    let valid : verify_audit_chain d log key ≡ ok true = ground arith in
    let made : page ≡ page_of d dates key after (suc k) log = ground arith in
    let chain = (verify_audit_chain_iff d key log).0 valid in
    let (hash, rest) = following-IsChain d key after log chain in
    (
      chain,
      rw made (omega (arith, length-take (suc k) (following after log))),
      subst (λ p. Continues after log p.events p.next_sequence) (sym made)
          (Page-Continues d dates key after k log rest),
    )
