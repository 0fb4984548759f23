-- ===== src/Auth/Policy/Allowed.antt =====
-- authorize: exactly who is allowed.
use legacy_vault.Base.{
  ℕ, ◌+◌, ◌*◌, ◌≤◌, ◌≡◌, ◌≢◌, ◌↔◌, ◌⊎◌, inl, inr, String, true, false, Option, none, some, List,
  arith, Any, any→Any, Any→any, Bool-cases, contains, truthy, trim, is_visible, truthy-trim, Dates,
  string_eq,
}
use legacy_vault.Domain.Enums.{
  support_agent, platform_admin, emergency_recipient, create, role_eq, category_eq, RecordCategory,
}
use legacy_vault.Domain.Permissions.{permits}
use legacy_vault.Auth.Policy.{
  SupportAccessApproval, AuthorizationRequest, authorize, is_stale, parse?, is_approved, is_covered,
  allow, approves, purpose_grants, mfa_roles, maximum_session_age_ms,
}

-- An instant stands at or before `now`, and at most `age` before it.
abbrev pub IsFresh : Option ℕ → Option ℕ → ℕ → Type 0
IsFresh (some now) (some t) age = (t ≤ now) × (now ≤ t + age)
IsFresh _ _ age = ⊥

abbrev pub IsFreshText : Dates → Option ℕ → Option String → ℕ → Type 0
IsFreshText dates now none age = ⊥
IsFreshText dates now (some text) age = (truthy text ≡ true) × IsFresh now (dates.parse text) age

-- Some approval of the list passes the test.
abbrev pub IsApproved : Dates → AuthorizationRequest → Option (List SupportAccessApproval) → Type 0
IsApproved dates r none = ⊥
IsApproved dates r (some approvals) = Any (λ a. approves dates r a ≡ true) approvals

abbrev pub IsReleased : RecordCategory → Option (List RecordCategory) → Type 0
IsReleased category none = ⊥
IsReleased category (some categories) = contains categories category ≡ true

-- An emergency recipient who asks for access.
abbrev pub AsksForAccess : AuthorizationRequest → Type 0
AsksForAccess r =
    (r.role ≡ emergency_recipient)
    × (r.purpose ≡ "vault.emergency-access.request")
    × (r.action ≡ create)

-- The conditions on a request that is allowed.
pub record IsAuthorized (dates : Dates) (r : AuthorizationRequest) : Type 0 where
  pub purposeful : is_visible r.purpose ≡ true
  pub session :
      IsFresh (dates.parse r.now) (dates.parse r.session_issued_at) (maximum_session_age_ms r.role)
  pub second_factor :
      (contains mfa_roles r.role ≡ true)
      → IsFreshText dates (dates.parse r.now) r.mfa_verified_at (12 * 60 * 60 * 1_000)
  pub no_admin : r.role ≢ platform_admin
  pub approved : r.role ≡ support_agent → IsApproved dates r r.support_approvals
  pub permitted :
      AsksForAccess r
      ⊎ ((r.role ≡ emergency_recipient → IsReleased r.category r.emergency_release_categories)
          × (permits dates r.role (purpose_grants dates r) r.category r.action r.now ≡ true))

module _ (dates : Dates) (r : AuthorizationRequest) where
  authorize_reason : ((authorize dates r).allowed ≡ true) ↔ ((authorize dates r).reason ≡ allow)
  unfolding authorize
  authorize_reason = ground arith

is_stale_iff : (now t : Option ℕ) (age : ℕ) → (is_stale now t age ≡ false) ↔ IsFresh now t age
unfolding is_stale
is_stale_iff none t age = ground arith
is_stale_iff (some n) none age = ground arith
is_stale_iff (some n) (some t) age = ground arith

IsFresh-none : (now : Option ℕ) (age : ℕ) → ¬ IsFresh now none age
IsFresh-none none age h = h
IsFresh-none (some n) age h = h

is_stale-parse_iff :
    (dates : Dates) (now : Option ℕ) (text : Option String) (age : ℕ)
    → (is_stale now (parse? dates text) age ≡ false) ↔ IsFreshText dates now text age
unfolding parse?
is_stale-parse_iff dates none none age = is_stale_iff none none age
is_stale-parse_iff dates (some n) none age = is_stale_iff (some n) none age
is_stale-parse_iff dates now (some text) age = elim (Bool-cases (truthy text)) [
  | inl e ↦
      let (to, from) = is_stale_iff now (dates.parse text) age in
      ((λ h. (e, to (rw e at h))), (λ (_, h). rw e (from h)))
  | inr e ↦ (
    (λ h. absurd (IsFresh-none now age ((is_stale_iff now none age).0 (rw e at h)))),
    (λ (h, _). cc),
  )
]

is_approved_iff :
    (dates : Dates) (r : AuthorizationRequest) (o : Option (List SupportAccessApproval))
    → (is_approved dates r o ≡ true) ↔ IsApproved dates r o
unfolding is_approved
is_approved_iff dates r none = ground arith
is_approved_iff dates r (some l) = (any→Any (approves dates r) l, Any→any (approves dates r))

is_covered_iff :
    (dates : Dates) (category : RecordCategory) (o : Option (List RecordCategory))
    → (is_covered dates category o ≡ true) ↔ IsReleased category o
unfolding is_covered
is_covered_iff dates category none = ground arith
is_covered_iff dates category (some l) = ((λ h. h), (λ h. h))

-- The same conditions, by the Boolean tests of the code.
record Passes (dates : Dates) (r : AuthorizationRequest) : Type 0 where
  purposeful : truthy (trim r.purpose) ≡ true
  session :
      is_stale (dates.parse r.now) (dates.parse r.session_issued_at) (maximum_session_age_ms r.role)
      ≡ false
  second_factor :
      (contains mfa_roles r.role ≡ true)
      → is_stale (dates.parse r.now) (parse? dates r.mfa_verified_at) (12 * 60 * 60 * 1_000) ≡ false
  no_admin : r.role ≢ platform_admin
  approved : r.role ≡ support_agent → is_approved dates r r.support_approvals ≡ true
  permitted :
      AsksForAccess r
      ⊎ ((r.role ≡ emergency_recipient
            → is_covered dates r.category r.emergency_release_categories ≡ true)
          × (permits dates r.role (purpose_grants dates r) r.category r.action r.now ≡ true))

module _ (dates : Dates) (r : AuthorizationRequest) where
  authorize-Passes : (authorize dates r).allowed ≡ true → Passes dates r
  unfolding authorize
  authorize-Passes h = ground (arith, string_eq.beq_iff r.purpose "vault.emergency-access.request")

  Passes-authorize : Passes dates r → (authorize dates r).allowed ≡ true
  unfolding authorize
  Passes-authorize p = ground (arith, string_eq.beq_iff r.purpose "vault.emergency-access.request")

  Passes-IsAuthorized : Passes dates r → IsAuthorized dates r
  Passes-IsAuthorized p = record {
    purposeful = rw truthy-trim at p.purposeful;
    session = (is_stale_iff _ _ _).0 p.session;
    second_factor = λ m. (is_stale-parse_iff dates _ r.mfa_verified_at _).0 (p.second_factor m);
    no_admin = p.no_admin;
    approved = λ e. (is_approved_iff dates r _).0 (p.approved e);
    permitted = elim p.permitted [
      | inl asks ↦ inl asks
      | inr (covered, permitted) ↦ inr ((λ e. (is_covered_iff dates _ _).0 (covered e)), permitted)
    ];
  }

  IsAuthorized-Passes : IsAuthorized dates r → Passes dates r
  IsAuthorized-Passes a = record {
    purposeful = rw truthy-trim a.purposeful;
    session = (is_stale_iff _ _ _).1 a.session;
    second_factor = λ m. (is_stale-parse_iff dates _ r.mfa_verified_at _).1 (a.second_factor m);
    no_admin = a.no_admin;
    approved = λ e. (is_approved_iff dates r _).1 (a.approved e);
    permitted = elim a.permitted [
      | inl asks ↦ inl asks
      | inr (released, permitted) ↦
          inr ((λ e. (is_covered_iff dates _ _).1 (released e)), permitted)
    ];
  }

-- A request is allowed exactly if its purpose is not blank, its session was issued at an instant
-- that is not in the future and not older than 15 minutes for staff or 7 days for others, owners,
-- co-owners and staff have a second factor of the last 12 hours, the role is no platform
-- administrator, a support agent has an approval that passes its test, and either an emergency
-- recipient asks for access, or the grants of the request's purpose permit the action, in a released
-- category if the role is an emergency recipient. The reason is "allow" exactly then.
pub authorize_iff :
    (dates : Dates) (r : AuthorizationRequest)
    → (((authorize dates r).allowed ≡ true) ↔ IsAuthorized dates r)
      × (((authorize dates r).reason ≡ allow) ↔ IsAuthorized dates r)
authorize_iff dates r =
    let (to, from) = authorize_reason dates r in
    let sound = λ (h : (authorize dates r).allowed ≡ true).
      Passes-IsAuthorized dates r (authorize-Passes dates r h) in
    let complete =
      λ (a : IsAuthorized dates r). Passes-authorize dates r (IsAuthorized-Passes dates r a) in
    ((sound, complete), ((λ h. sound (from h)), (λ a. to (complete a))))
