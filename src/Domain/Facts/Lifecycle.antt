-- ===== src/Domain/Facts/Lifecycle.antt =====
-- The life of a fact under confirmFact and rejectFact.
use legacy_vault.Base.{
  ℕ, ◌+◌, ◌≡◌, ◌≢◌, ◌↔◌, ◌⊎◌, refl, ap, ◌∙◌, String, some, true, [], ok, arith, truthy, truthy?,
}
use legacy_vault.Domain.Enums.{FactStatus, manual}
use legacy_vault.Domain.Entities.{CandidateFact}
use legacy_vault.Domain.Facts.{confirm_fact, reject_fact}

-- What a confirmation asks for.
pub record MayConfirm {V : Type 0} (f : CandidateFact V) (actor at : String) : Type 0 where
  pub open_ : (f.status ≡ FactStatus.candidate) ⊎ (f.status ≡ FactStatus.disputed)
  pub backed : (f.evidence_ids ≢ []) ⊎ (f.source_type ≡ manual)
  pub by : truthy actor ≡ true
  pub time : truthy at ≡ true

-- confirmFact succeeds exactly for a candidate or disputed fact that has evidence or was entered by
-- hand, with an actor and a time; it then sets the status, the actor and the time, counts one
-- version, and changes nothing else.
pub confirm_fact_iff :
    {V : Type 0} (f g : CandidateFact V) (actor at : String)
    → (confirm_fact f actor at ≡ ok g) ↔ (
        MayConfirm f actor at
        × (g ≡ record f {
          status = FactStatus.confirmed;
          confirmed_by = some actor;
          confirmed_at = some at;
          version = f.version + 1;
        }))
unfolding confirm_fact
confirm_fact_iff f g actor at = ground arith

-- One call that succeeds.
pub data FactStep {V : Type 0} (f g : CandidateFact V) : Type 0 where
  confirm : (actor at : String) → confirm_fact f actor at ≡ ok g → FactStep f g
  reject : reject_fact f ≡ ok g → FactStep f g

pub data FactReach {V : Type 0} (f : CandidateFact V) : CandidateFact V → ℕ → Type 0 where
  here : FactReach f f 0
  next : {g h : CandidateFact V} {n : ℕ} → FactReach f g n → FactStep g h → FactReach f h (n + 1)

-- A confirmed fact has evidence or was entered by hand, and says who confirmed it and when.
pub record IsBacked {V : Type 0} (f : CandidateFact V) : Type 0 where
  pub evidence : f.status ≡ FactStatus.confirmed → (f.evidence_ids ≢ []) ⊎ (f.source_type ≡ manual)
  pub by : f.status ≡ FactStatus.confirmed → truthy? f.confirmed_by ≡ true
  pub time : f.status ≡ FactStatus.confirmed → truthy? f.confirmed_at ≡ true

FactStep-IsBacked : {V : Type 0} {f g : CandidateFact V} → FactStep f g → IsBacked f → IsBacked g
unfolding confirm_fact reject_fact
FactStep-IsBacked (confirm actor at e) b = ground arith
FactStep-IsBacked (reject e) b = ground arith

-- Along any calls of confirmFact and rejectFact, a confirmed fact is backed if it was at the start.
FactReach-IsBacked :
    {V : Type 0} {f g : CandidateFact V} {n : ℕ} → FactReach f g n → IsBacked f → IsBacked g
FactReach-IsBacked here b = b
FactReach-IsBacked (next r s) b = FactStep-IsBacked s (FactReach-IsBacked r b)

FactStep-version : {V : Type 0} {f g : CandidateFact V} → FactStep f g → g.version ≡ f.version + 1
unfolding confirm_fact reject_fact
FactStep-version (confirm actor at e) = ground arith
FactStep-version (reject e) = ground arith

FactStep-rejected :
    {V : Type 0} {f g : CandidateFact V}
    → FactStep f g
    → f.status ≡ FactStatus.rejected
    → g.status ≡ FactStatus.rejected
unfolding confirm_fact reject_fact
FactStep-rejected (confirm actor at e) h = ground arith
FactStep-rejected (reject e) h = ground arith

FactStep-confirmed :
    {V : Type 0} {f g : CandidateFact V} → FactStep f g → f.status ≢ FactStatus.confirmed
unfolding confirm_fact reject_fact
FactStep-confirmed (confirm actor at e) h = ground arith
FactStep-confirmed (reject e) h = ground arith

-- After n successful calls the version is n higher; a rejected fact stays rejected; and a confirmed
-- fact allows no call, so a fact that moved was not confirmed before.
pub FactReach-history :
    {V : Type 0} {f g : CandidateFact V} {n : ℕ}
    → FactReach f g n
    → (g.version ≡ f.version + n)
      × (f.status ≡ FactStatus.rejected → g.status ≡ FactStatus.rejected)
      × (f.status ≡ FactStatus.confirmed → (g ≡ f) × (n ≡ 0))
unfolding confirm_fact reject_fact
FactReach-history here = (omega arith, (λ h. h), (λ h. (refl, refl)))
FactReach-history (next {g} {n} r s) =
    let (version, stays, still) = FactReach-history r in
    (
      omega (arith, FactStep-version s),
      (λ h. FactStep-rejected s (stays h)),
      (λ h. absurd (FactStep-confirmed s (ap (λ f. f.status) (still h).0 ∙ h))),
    )
