-- ===== src/Repository/Members/History.antt =====
-- A household over any calls of its members' methods.
use mathlib.Core.Path.{subst}
use legacy_vault.Base.{
  ℕ, ◌≡◌, refl, sym, ◌∙◌, String, Bool, true, not, List, [], ◌∷◌, ok, Result-cases, Bool-cases, inl,
  inr, All, arith, ◌>>◌, throw_if,
}
use legacy_vault.Domain.Enums.{Role}
use legacy_vault.Repository.Transactions.{AccountContext, with_tenant, role_not_assignable}
use legacy_vault.Repository.Idempotency.{IdempotencyRecord, Request, idempotent}
use legacy_vault.Repository.Idempotency.Replays.{replays, performs, idempotent-Answered}
use legacy_vault.Repository.Members.{
  Household, Response, Tables, InvitationInput, create_membership_invitation,
  revoke_membership_invitation, update_membership_role, is_assignable,
}
use legacy_vault.Repository.Members.Acceptance.{AcceptanceInput, accept_membership_invitation}
use legacy_vault.Repository.Members.Owners.{
  IsSound, Keeps, invite-Keeps, revoke-Keeps, change_role-Keeps, accept-Keeps,
}

-- An account comes with its own idempotency records.
pub data MembersCall : Type 0 where
  invite_call : String → InvitationInput → MembersCall
  revoke_call : (key hash id : String) → (expected at : ℕ) → MembersCall
  role_call : (key hash id : String) → Role → (expected : ℕ) → MembersCall
  accept_call :
      AccountContext → List (IdempotencyRecord Response) → String → AcceptanceInput → MembersCall

abbrev pub call : MembersCall → Tables → Tables
call (invite_call hash input) tables =
    (with_tenant (create_membership_invitation hash input) tables).1
call (revoke_call key hash id expected at) tables =
    (with_tenant (revoke_membership_invitation key hash id expected at) tables).1
call (role_call key hash id role expected) tables =
    (with_tenant (update_membership_role key hash id role expected) tables).1
call (accept_call context records hash input) (rows, h) =
    (rows, (with_tenant (accept_membership_invitation context hash input) (records, h)).1.1)

-- The tables after some calls, each in its own transaction.
unfoldable pub run_calls : List MembersCall → Tables → Tables
run_calls [] tables = tables
run_calls (c ∷ calls) tables = run_calls calls (call c tables)

Keeps-same : (h : Household) → All IsSound h.invitations → Keeps h h
Keeps-same h sound = record { owners = refl; joins = refl; sound = sound }

Keeps-step : {h g f : Household} → Keeps h g → Keeps g f → Keeps h f
Keeps-step k l = record {
  owners = l.owners ∙ k.owners;
  joins = omega (arith, k.joins, l.joins);
  sound = l.sound;
}

-- A request keeps what its operation keeps.
idempotent-Keeps :
    (r : Request Response Household) (rows : List (IdempotencyRecord Response)) (h : Household)
    → All IsSound h.invitations
    → ((g : Household) (a : Response) → r.operation h ≡ ok (a, g) → Keeps h g)
    → Keeps h (with_tenant (idempotent r) (rows, h)).1.1
idempotent-Keeps r rows h sound keeps = elim (Result-cases (idempotent r (rows, h))) [
  | inr (x, e) ↦
      let same : (with_tenant (idempotent r) (rows, h)).1 ≡ (rows, h) = ground arith in
      subst (λ t. Keeps h t.1) (sym same) (Keeps-same h sound)
  | inl ((a, after), e) ↦
      let left : (with_tenant (idempotent r) (rows, h)).1 ≡ after = ground arith in
      subst (λ t. Keeps h t.1) (sym left)
        (elim (idempotent-Answered r rows h a after e) [
          | replays holds same ↦ subst (λ t. Keeps h t.1) (sym same) (Keeps-same h sound)
          | performs {t} n p same ↦ subst (λ t. Keeps h t.1) (sym same) (keeps t a p)
        ])
]

-- A call that checks the role first.
checked-Keeps :
    (role : Role) (r : Request Response Household) (rows : List (IdempotencyRecord Response))
    (h : Household)
    → All IsSound h.invitations
    → (is_assignable role ≡ true
        → (g : Household) (a : Response) → r.operation h ≡ ok (a, g)
        → Keeps h g)
    → Keeps h
        (with_tenant
          (λ t. throw_if (not (is_assignable role)) role_not_assignable >> idempotent r t)
          (rows, h)).1.1
checked-Keeps role r rows h sound keeps =
    let result = λ (b : Bool).
      Keeps h
        (with_tenant (λ t. throw_if (not b) role_not_assignable >> idempotent r t) (rows, h)).1.1 in
    elim (Bool-cases (is_assignable role)) [
      | inl e ↦ subst result (sym e) (idempotent-Keeps r rows h sound (keeps e))
      | inr e ↦ subst result (sym e) (Keeps-same h sound)
    ]

call-Keeps : (c : MembersCall) (t : Tables) → All IsSound t.1.invitations → Keeps t.1 (call c t).1
unfolding create_membership_invitation revoke_membership_invitation update_membership_role
    accept_membership_invitation
call-Keeps (invite_call hash input) (rows, h) sound =
    checked-Keeps input.role _ rows h sound (λ may g a e. invite-Keeps input h g a may sound e)
call-Keeps (revoke_call key hash id expected at) (rows, h) sound =
    idempotent-Keeps _ rows h sound (λ g a e. revoke-Keeps id expected at h g a sound e)
call-Keeps (role_call key hash id role expected) (rows, h) sound =
    checked-Keeps role _ rows h sound
      (λ may g a e. change_role-Keeps id role expected h g a may sound e)
call-Keeps (accept_call context records hash input) (rows, h) sound =
    idempotent-Keeps _ records h sound (λ g a e. accept-Keeps context input h g a sound e)

-- However members are invited, take up invitations or lose them, and change roles: the memberships with
-- the role of an owner stay as they are, none is made or changed; the other memberships grow by
-- exactly one for each invitation that is accepted; and every invitation is for a role that may be
-- given, has at most been accepted or been revoked, and says who accepted it if it was.
pub run_calls-Keeps :
    (calls : List MembersCall) (tables : Tables)
    → All IsSound tables.1.invitations
    → Keeps tables.1 (run_calls calls tables).1
unfolding run_calls
run_calls-Keeps [] (rows, h) sound = Keeps-same h sound
run_calls-Keeps (c ∷ calls) tables sound =
    let k = call-Keeps c tables sound in
    Keeps-step k (run_calls-Keeps calls (call c tables) k.sound)
