-- ===== src/Auth/Policy/Support.antt =====
-- authorize: what a support agent who is let in can be sure to have had.
use legacy_vault.Base.{
  ℕ, ◌+◌, ◌*◌, ◌≤◌, ◌<◌, ◌≡◌, true, false, Option, none, some, List, arith, Any, contains, truthy?,
  is_visible, truthy-trim, Dates, inl, inr, here, there, value_of, ◌≢◌, refl, ap,
}
use mathlib.Core.Path.{subst}
use legacy_vault.Domain.Enums.{support_agent, read, RecordCategory, category_eq}
use legacy_vault.Domain.Permissions.{permits}
use legacy_vault.Auth.Policy.{
  SupportAccessApproval, AuthorizationRequest, authorize, approves, purpose_grants,
  maximum_session_age_ms,
}
use legacy_vault.Auth.Policy.Allowed.{IsAuthorized, authorize_iff, IsFresh, IsApproved}

-- The approval is in force at the instant `now` for the category, for at most four hours in all.
pub record Covers (dates : Dates) (category : RecordCategory) (now : ℕ) (a : SupportAccessApproval)
    : Type 0 where
  pub kept : truthy? a.revoked_at ≡ false
  pub reasoned : is_visible a.reason_code ≡ true
  pub named : contains a.categories category ≡ true
  pub starts : ℕ
  pub expires : ℕ
  pub from : dates.parse a.starts_at ≡ some starts
  pub until : dates.parse a.expires_at ≡ some expires
  pub begun : starts ≤ now
  pub open_ : now < expires
  pub short : expires ≤ starts + 4 * 60 * 60 * 1_000

module _ (dates : Dates) (r : AuthorizationRequest) (a : SupportAccessApproval) (n : ℕ)
    (current : dates.parse r.now ≡ some n) (h : approves dates r a ≡ true) where
  approves-Covers_at :
      (s e : ℕ)
      → dates.parse a.starts_at ≡ some s
      → dates.parse a.expires_at ≡ some e
      → Covers dates r.category n a
  unfolding approves
  approves-Covers_at s e p q = record {
    kept = ground arith;
    reasoned = ground (arith, truthy-trim a.reason_code);
    named = ground arith;
    starts = s;
    expires = e;
    from = p;
    until = q;
    begun = ground arith;
    open_ = ground arith;
    short = ground arith;
  }

  starts_ne_none : dates.parse a.starts_at ≢ none
  unfolding approves
  starts_ne_none e = ground arith

  expires_ne_none : dates.parse a.expires_at ≢ none
  unfolding approves
  expires_ne_none e = ground arith

  approves-Covers : Covers dates r.category n a
  approves-Covers =
      let (s, p) = value_of starts_ne_none in
      let (e, q) = value_of expires_ne_none in approves-Covers_at s e p q

-- Some approval of the list, if there is one, is in force for the category.
abbrev pub IsCovered : Dates → RecordCategory → ℕ → Option (List SupportAccessApproval) → Type 0
IsCovered dates category n none = ⊥
IsCovered dates category n (some approvals) = Any (Covers dates category n) approvals

Any-map {ℓ κ μ} :
    {A : Type ℓ} {P : A → Type κ} {Q : A → Type μ} {xs : List A}
    → ((x : A) → P x → Q x)
    → Any P xs
    → Any Q xs
Any-map f (here p) = here (f _ p)
Any-map f (there t) = there (Any-map f t)

Approved-Covers :
    (dates : Dates) (r : AuthorizationRequest) (n : ℕ) (o : Option (List SupportAccessApproval))
    → dates.parse r.now ≡ some n
    → IsApproved dates r o
    → IsCovered dates r.category n o
Approved-Covers dates r n none p h = h
Approved-Covers dates r n (some l) p h = Any-map (λ a. approves-Covers dates r a n p) h

-- What was checked for a support agent: a session of the last 15 minutes, and some approval that
-- covers the category now; and the agent can only read.
abbrev pub SupportChecked : Dates → AuthorizationRequest → Option ℕ → Type 0
SupportChecked dates r none = ⊥
SupportChecked dates r (some n) =
    IsFresh (some n) (dates.parse r.session_issued_at) (15 * 60 * 1_000)
    × IsCovered dates r.category n r.support_approvals
    × (r.action ≡ read)

permits-read :
    (dates : Dates) (r : AuthorizationRequest)
    → r.role ≡ support_agent
    → permits dates r.role (purpose_grants dates r) r.category r.action r.now ≡ true
    → r.action ≡ read
unfolding permits
permits-read dates r role h = ground arith

module _ (dates : Dates) (r : AuthorizationRequest) (role : r.role ≡ support_agent)
    (a : IsAuthorized dates r) where
  support_reads : r.action ≡ read
  support_reads = elim a.permitted [
    | inl (emergency, _, _) ↦ absurd (ground arith)
    | inr (_, permitted) ↦ permits-read dates r role permitted
  ]

  support_session : IsFresh (dates.parse r.now) (dates.parse r.session_issued_at) (15 * 60 * 1_000)
  support_session =
      subst (λ s. IsFresh (dates.parse r.now) (dates.parse r.session_issued_at) s)
        (ap maximum_session_age_ms role) a.session

  support_checked : (o : Option ℕ) → dates.parse r.now ≡ o → SupportChecked dates r o
  support_checked none e = rw e at support_session
  support_checked (some n) e =
      (rw e at support_session, Approved-Covers dates r n _ e (a.approved role), support_reads)

-- A support agent is let in only at a time that is a date, with a session of the last 15 minutes, to
-- read, and under an unrevoked approval with a reason that names the category, has begun, has not
-- expired and lasts four hours at most.
pub authorize_support :
    (dates : Dates) (r : AuthorizationRequest)
    → r.role ≡ support_agent
    → (authorize dates r).allowed ≡ true
    → SupportChecked dates r (dates.parse r.now)
authorize_support dates r role h =
    support_checked dates r role ((authorize_iff dates r).0.0 h) _ refl
