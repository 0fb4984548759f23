-- ===== src/Repository/Members/Owners.antt =====
-- The invitations and memberships of a household over any calls.
use mathlib.Core.Path.{subst}
use legacy_vault.Base.{
  ℕ, ◌+◌, ◌≡◌, refl, sym, ap, ◌∙◌, String, Bool, true, false, ◌&&◌, List, ok, Option-cases, inl,
  inr, All, arith, is_some, length, filter, ◌==◌, nat_eq, string_eq,
}
use legacy_vault.Domain.Enums.{Role, owner, role_eq}
use legacy_vault.Repository.Transactions.{AccountContext}
use legacy_vault.Repository.Rows.{insert_row, update_row}
use legacy_vault.Repository.Rows.Lookup.{insert_row-All, update_row-All, find_row-All}
use legacy_vault.Repository.Rows.Counting.{
  update_row-Changed, insert_row-filter, Changed-filter, Changed-count, insert_row-length,
  Changed-length,
}
use legacy_vault.Repository.Members.{
  Invitation, Membership, Household, Response, invitation_id, membership_id, InvitationInput,
  new_invitation, invite, may_revoke, revoked_invitation, revoke, may_update_role, with_role,
  change_role, is_assignable,
}
use legacy_vault.Repository.Members.Joins.{accept-Traced}
use legacy_vault.Repository.Members.Acceptance.{
  AcceptanceInput, accept, new_membership, may_accept, accepted_invitation,
}

abbrev pub is_owner : Membership → Bool
is_owner m = m.role == owner

abbrev pub is_accepted : Invitation → Bool
is_accepted i = is_some i.accepted_at

-- An invitation is for a role that may be given, and at most one thing has become of it.
pub record IsSound (i : Invitation) : Type 0 where
  pub assignable : is_assignable i.role ≡ true
  pub once : (is_some i.accepted_at && is_some i.revoked_at) ≡ false
  pub by : is_some i.accepted_by ≡ is_some i.accepted_at

-- What a call keeps of a household: its owners' memberships, and one membership for each
-- invitation accepted since.
pub record Keeps (h g : Household) : Type 0 where
  pub owners : filter is_owner g.memberships ≡ filter is_owner h.memberships
  pub joins :
      length g.memberships + length (filter is_accepted h.invitations)
      ≡ length h.memberships + length (filter is_accepted g.invitations)
  pub sound : All IsSound g.invitations

-- A household whose memberships and invitations became the given ones.
Keeps-of :
    (h g : Household) (members : List Membership) (invitations : List Invitation)
    → g.memberships ≡ members
    → g.invitations ≡ invitations
    → filter is_owner members ≡ filter is_owner h.memberships
    → length members + length (filter is_accepted h.invitations)
      ≡ length h.memberships + length (filter is_accepted invitations)
    → All IsSound invitations
    → Keeps h g
Keeps-of h g members invitations m i owners joins sound = record {
  owners = ap (filter is_owner) m ∙ owners;
  joins = omega (arith, joins, ap length m, ap (λ i. length (filter is_accepted i)) i);
  sound = subst (λ i. All IsSound i) (sym i) sound;
}

assignable-other : (role : Role) → is_assignable role ≡ true → (role == owner) ≡ false
assignable-other role h = ground arith

pub invite-Keeps :
    (input : InvitationInput) (h g : Household) (a : Response)
    → is_assignable input.role ≡ true
    → All IsSound h.invitations
    → invite input h ≡ ok (a, g)
    → Keeps h g
unfolding invite
invite-Keeps input h g a may sound e =
    elim (Option-cases (insert_row invitation_id (new_invitation input) h.invitations)) [
      | inl n ↦ ground arith
      | inr (after, n) ↦
          Keeps-of h g h.memberships after (ground arith) (ground arith) refl
            (omega (
              arith,
              ap length (
                  insert_row-filter invitation_id is_accepted (new_invitation input) h.invitations
                    after refl n),
            ))
            (insert_row-All invitation_id IsSound (new_invitation input) h.invitations after
              (record { assignable = may; once = refl; by = refl }) sound n)
    ]

pub revoke-Keeps :
    (id : String) (expected at : ℕ) (h g : Household) (a : Response)
    → All IsSound h.invitations
    → revoke id expected at h ≡ ok (a, g)
    → Keeps h g
unfolding revoke
revoke-Keeps id expected at h g a sound e =
    elim (Option-cases
      (update_row invitation_id id (may_revoke expected) (revoked_invitation at) h.invitations)) [
        | inl n ↦ ground arith
        | inr ((i, after), n) ↦
            let c =
              update_row-Changed invitation_id id (may_revoke expected) (revoked_invitation at)
                h.invitations i after n in
            Keeps-of h g h.memberships after (ground arith) (ground arith) refl
              (omega (
                arith,
                ap length (
                    Changed-filter invitation_id is_accepted (λ x g. ground arith)
                      (λ x g. ground arith) c),
              ))
              (update_row-All invitation_id IsSound id (may_revoke expected) (revoked_invitation at)
                h.invitations i after
                (λ x g p. record { assignable = p.assignable; once = ground arith; by = p.by })
                sound n)
      ]

pub change_role-Keeps :
    (id : String) (role : Role) (expected : ℕ) (h g : Household) (a : Response)
    → is_assignable role ≡ true
    → All IsSound h.invitations
    → change_role id role expected h ≡ ok (a, g)
    → Keeps h g
unfolding change_role
change_role-Keeps id role expected h g a may sound e =
    elim (Option-cases
      (update_row membership_id id (may_update_role expected) (with_role role) h.memberships)) [
        | inl n ↦ ground arith
        | inr ((m, after), n) ↦
            let c =
              update_row-Changed membership_id id (may_update_role expected) (with_role role)
                h.memberships m after n in
            Keeps-of h g after h.invitations (ground arith) (ground arith)
              (Changed-filter membership_id is_owner (λ x g. ground arith)
                (λ x g. assignable-other role may) c)
              (omega (arith, Changed-length membership_id c)) sound
      ]

pub accept-Keeps :
    (context : AccountContext) (input : AcceptanceInput) (h g : Household) (a : Response)
    → All IsSound h.invitations
    → accept context input h ≡ ok (a, g)
    → Keeps h g
accept-Keeps context input h g a sound e =
    let s = accept-Traced context input h g a e in
    let p = find_row-All invitation_id IsSound s.visible.id h.invitations s.locked sound s.was in
    let c =
      update_row-Changed invitation_id s.locked.id (may_accept input.expected_invitation_version)
        (accepted_invitation context input.accepted_at) h.invitations s.changed g.invitations
        s.taken in
    record {
      owners =
          insert_row-filter membership_id is_owner (new_membership context input s.locked.role)
            h.memberships g.memberships (assignable-other s.locked.role p.assignable) s.members;
      joins = omega (
        arith,
        insert_row-length membership_id (new_membership context input s.locked.role) h.memberships
            g.memberships s.members,
        Changed-count invitation_id is_accepted (λ x g. ground arith) (λ x g. refl) c,
      );
      sound =
          update_row-All invitation_id IsSound s.locked.id
            (may_accept input.expected_invitation_version)
            (accepted_invitation context input.accepted_at) h.invitations s.changed g.invitations
            (λ x g p. record { assignable = p.assignable; once = ground arith; by = refl }) sound
            s.taken;
    }
