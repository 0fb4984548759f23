-- ===== src/Domain/Emergency/Transitions.antt =====
-- Which histories an emergency access request can have.
use legacy_vault.Base.{
  ℕ, ◌+◌, ◌≤◌, ◌≡◌, ◌↔◌, ◌⊎◌, refl, ap, ◌∙◌, String, Option, none, some, true, ok, arith, truthy,
  contains, Dates,
}
use legacy_vault.Domain.Enums.{
  EmergencyAccessStatus, requested, approved, denied, delayed, released, revoked, emergency_eq,
}
use legacy_vault.Domain.Entities.{EmergencyAccessRequest}
use legacy_vault.Domain.Emergency.{emergency_transitions, transition_emergency_access}

-- The moves that the workflow allows.
pub data Moves : EmergencyAccessStatus → EmergencyAccessStatus → Type 0 where
  approve_requested : Moves requested approved
  deny_requested : Moves requested denied
  delay_requested : Moves requested delayed
  revoke_requested : Moves requested revoked
  delay_approved : Moves approved delayed
  release_approved : Moves approved released
  revoke_approved : Moves approved revoked
  approve_delayed : Moves delayed approved
  deny_delayed : Moves delayed denied
  release_delayed : Moves delayed released
  revoke_delayed : Moves delayed revoked
  revoke_released : Moves released revoked

-- The end of a delay does not come after the time, where both are dates.
abbrev pub IsOver : (time end : Option ℕ) → Type 0
IsOver (some now) (some end) = end ≤ now
IsOver _ _ = Unit

-- The delay of a request, if it has one, is over at the time.
abbrev pub DelayOver : Dates → Option String → String → Type 0
DelayOver dates none at = Unit
DelayOver dates (some text) at = (truthy text ≡ true) → IsOver (dates.parse at) (dates.parse text)

-- One call that succeeds.
pub data EmergencyStep (dates : Dates) (r s : EmergencyAccessRequest) : Type 0 where
  move :
      (next : EmergencyAccessStatus) (at : String)
      → transition_emergency_access dates r next at ≡ ok s
      → EmergencyStep dates r s

pub data EmergencyReach (dates : Dates) (r : EmergencyAccessRequest)
    : EmergencyAccessRequest → ℕ → Type 0 where
  here : EmergencyReach dates r r 0
  next :
      {s t : EmergencyAccessRequest} {n : ℕ}
      → EmergencyReach dates r s n
      → EmergencyStep dates s t
      → EmergencyReach dates r t (n + 1)

transition-Moves :
    (a b : EmergencyAccessStatus) → contains (emergency_transitions a) b ≡ true → Moves a b
transition-Moves requested approved h = approve_requested
transition-Moves requested denied h = deny_requested
transition-Moves requested delayed h = delay_requested
transition-Moves requested revoked h = revoke_requested
transition-Moves approved delayed h = delay_approved
transition-Moves approved released h = release_approved
transition-Moves approved revoked h = revoke_approved
transition-Moves delayed approved h = approve_delayed
transition-Moves delayed denied h = deny_delayed
transition-Moves delayed released h = release_delayed
transition-Moves delayed revoked h = revoke_delayed
transition-Moves released revoked h = revoke_released
transition-Moves _ _ h = cc

Moves-transition :
    {a b : EmergencyAccessStatus} → Moves a b → contains (emergency_transitions a) b ≡ true
Moves-transition approve_requested = refl
Moves-transition _ = refl

module _ (dates : Dates) (r s : EmergencyAccessRequest) (status : EmergencyAccessStatus)
    (at : String) where
  -- What a successful call returns.
  abbrev pub Decided : Type 0
  Decided = s ≡ record r { status = status; decision_at = some at; version = r.version + 1 }

  transition_cases : (transition_emergency_access dates r status at ≡ ok s) ↔ (
      (contains (emergency_transitions r.status) status ≡ true)
      × (status ≡ released → DelayOver dates r.release_after at)
      × Decided)
  unfolding transition_emergency_access
  transition_cases = ground arith

-- A call succeeds exactly for a move of the workflow, and for a release only when the delay is over;
-- it sets the status and the time of the decision, counts one version, and changes nothing else.
pub transition_emergency_access_iff :
    (dates : Dates) (r s : EmergencyAccessRequest) (status : EmergencyAccessStatus) (at : String)
    → (transition_emergency_access dates r status at ≡ ok s) ↔ (
        Moves r.status status
        × (status ≡ released → DelayOver dates r.release_after at)
        × (s ≡ record r { status = status; decision_at = some at; version = r.version + 1 }))
transition_emergency_access_iff dates r s status at =
    let (to, from) = transition_cases dates r s status at in
    (
      (λ h. let (m, d, e) = to h in (transition-Moves r.status status m, d, e)),
      (λ (m, d, e). from (Moves-transition m, d, e)),
    )

EmergencyStep-Moves :
    {dates : Dates} {r s : EmergencyAccessRequest}
    → EmergencyStep dates r s
    → Moves r.status s.status
EmergencyStep-Moves {dates} {r} {s} (move status at h) =
    let (m, d, e) = (transition_emergency_access_iff dates r s status at).0 h in
    rw (ap (λ q. q.status) e) m

EmergencyStep-frame :
    {dates : Dates} {r s : EmergencyAccessRequest}
    → EmergencyStep dates r s
    → (s.version ≡ r.version + 1)
      × (s.categories ≡ r.categories)
      × (s.recipient_membership_id ≡ r.recipient_membership_id)
      × (s.release_after ≡ r.release_after)
EmergencyStep-frame {dates} {r} {s} (move status at h) =
    let (m, d, e) = (transition_emergency_access_iff dates r s status at).0 h in
    rw e (refl, refl, refl, refl)

-- The status that a request can have, once it has been denied, revoked or released.
abbrev pub Settled : EmergencyAccessStatus → EmergencyAccessStatus → Type 0
Settled denied b = b ≡ denied
Settled revoked b = b ≡ revoked
Settled released b = (b ≡ released) ⊎ (b ≡ revoked)
Settled _ b = Unit

Settled-self : (a : EmergencyAccessStatus) → Settled a a
Settled-self a = ground arith

Moves-Settled :
    (a : EmergencyAccessStatus) {b c : EmergencyAccessStatus}
    → Moves b c
    → Settled a b
    → Settled a c
Moves-Settled denied m h = ground (arith, Moves-transition m)
Moves-Settled a m h = ground (arith, Moves-transition m)

-- Along any successful calls, each adds one to the version, and none changes whom the request is
-- for, its categories or its delay. A denied request stays denied, a revoked one revoked, and a
-- released one can only be revoked.
pub EmergencyReach-history :
    {dates : Dates} {r s : EmergencyAccessRequest} {n : ℕ}
    → EmergencyReach dates r s n
    → (s.version ≡ r.version + n)
      × (s.categories ≡ r.categories)
      × (s.recipient_membership_id ≡ r.recipient_membership_id)
      × (s.release_after ≡ r.release_after)
      × Settled r.status s.status
EmergencyReach-history {r} here = (omega arith, refl, refl, refl, Settled-self r.status)
EmergencyReach-history (next reach step) =
    let (v, c, m, a, t) = EmergencyReach-history reach in
    let (v', c', m', a') = EmergencyStep-frame step in
    (omega arith, c' ∙ c, m' ∙ m, a' ∙ a, Moves-Settled _ (EmergencyStep-Moves step) t)
