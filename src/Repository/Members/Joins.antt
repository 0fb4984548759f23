-- ===== src/Repository/Members/Joins.antt =====
-- What an acceptance has found and left.
use mathlib.Core.Path.{subst}
use legacy_vault.Base.{
  ◌+◌, ◌≡◌, true, false, some, ok, Option-cases, inl, inr, arith, ◌==◌, nat_eq, string_eq, find,
  any, is_text, is_text_iff, refl, ap, ◌∙◌, none, String, List, [], ◌∷◌, All, ◌≢◌, ◌<◌,
  if◌then◌else◌, find_sound,
}
use legacy_vault.Repository.Transactions.{AccountContext}
use legacy_vault.Repository.Rows.Lookup.{find_row-key, insert_row-view, update_row-Updated, put_at}
use legacy_vault.Repository.Rows.{insert_row, update_row, find_row}
use legacy_vault.Repository.Members.{
  Invitation, Membership, Household, Response, joined, invitation_id, membership_id, person_id,
}
use legacy_vault.Repository.Members.Acceptance.{
  AcceptanceInput, accept, new_person, new_membership, may_accept, accepted_invitation, is_open,
}

-- The values along the way of an acceptance that succeeds.
pub record Traced (context : AccountContext) (input : AcceptanceInput) (h g : Household)
    (a : Response) : Type 0 where
  pub visible : Invitation
  pub tokened : find (λ i. i.token_hash == input.token_hash) h.invitations ≡ some visible
  pub opened : is_open input visible ≡ true
  pub locked : Invitation
  pub was : find_row invitation_id visible.id h.invitations ≡ some locked
  pub still : is_open input locked ≡ true
  pub expected : locked.version ≡ input.expected_invitation_version
  pub stranger : any (λ m. is_text m.auth_user_id context.auth_user_id) h.memberships ≡ false
  pub members :
      insert_row membership_id (new_membership context input locked.role) h.memberships
      ≡ some g.memberships
  pub changed : Invitation
  pub taken :
      update_row invitation_id locked.id
        (may_accept input.expected_invitation_version)
        (accepted_invitation context input.accepted_at)
        h.invitations
      ≡ some (changed, g.invitations)
  pub counted : g.version ≡ h.version + 1
  pub answer : a ≡ joined h.id h.name g.version input.membership_id locked.role 1

pub accept-Traced :
    (context : AccountContext) (input : AcceptanceInput) (h g : Household) (a : Response)
    → accept context input h ≡ ok (a, g)
    → Traced context input h g a
unfolding accept
accept-Traced context input h g a e =
    elim (Option-cases (find (λ i. i.token_hash == input.token_hash) h.invitations)) [
      | inl n ↦ ground arith
      | inr (visible, v) ↦ elim (Option-cases (find_row invitation_id visible.id h.invitations)) [
        | inl n ↦ ground arith
        | inr (locked, l) ↦ elim (Option-cases (insert_row person_id (new_person input) h.people)) [
          | inl n ↦ ground arith
          | inr (people, q) ↦
              elim (Option-cases (
                insert_row membership_id (new_membership context input locked.role)
                  h.memberships)) [
                    | inl n ↦ ground arith
                    | inr (members, m) ↦
                        elim (Option-cases (
                          update_row invitation_id locked.id
                            (may_accept input.expected_invitation_version)
                            (accepted_invitation context input.accepted_at) h.invitations)) [
                              | inl n ↦ ground arith
                              | inr ((changed, invitations), u) ↦ record {
                                visible = visible;
                                tokened = v;
                                opened = ground arith;
                                locked = locked;
                                was = l;
                                still = ground arith;
                                expected = ground (
                                  arith,
                                  nat_eq.beq_iff locked.version input.expected_invitation_version,
                                );
                                stranger = ground arith;
                                members = ground arith;
                                changed = changed;
                                taken = ground arith;
                                counted = ground arith;
                                answer = ground arith;
                              }
                            ]
                  ]
        ]
      ]
    ]

-- For the address, neither accepted nor revoked, and not expired.
pub record IsOpenAt (input : AcceptanceInput) (i : Invitation) : Type 0 where
  pub address : i.email_hash ≡ input.email_hash
  pub unaccepted : i.accepted_at ≡ none
  pub unrevoked : i.revoked_at ≡ none
  pub unexpired : input.accepted_at < i.expires_at

is_open-IsOpenAt :
    (input : AcceptanceInput) (i : Invitation) → is_open input i ≡ true → IsOpenAt input i
is_open-IsOpenAt input i h = record {
  address = ground (arith, string_eq.beq_iff i.email_hash input.email_hash);
  unaccepted = ground arith;
  unrevoked = ground arith;
  unexpired = ground arith;
}

strangers :
    (user : String) (members : List Membership)
    → any (λ m. is_text m.auth_user_id user) members ≡ false
    → All (λ m. m.auth_user_id ≢ some user) members
strangers user [] h = tt
strangers user (m ∷ members) h = (
  (λ e. absurd (ground (arith, (is_text_iff m.auth_user_id user).1 e))),
  strangers user members (ground arith),
)

-- The invitation with the token and the row with its id are open, the row at the expected version; the
-- account is no member and the membership's id is free. The new membership stands beside the old
-- ones, the row alone is marked among the invitations, and the household counts one version.
pub record Accepts (context : AccountContext) (input : AcceptanceInput) (h g : Household)
    (a : Response) : Type 0 where
  pub visible : Invitation
  pub found : find (λ i. i.token_hash == input.token_hash) h.invitations ≡ some visible
  pub token : visible.token_hash ≡ input.token_hash
  pub visible_open : IsOpenAt input visible
  pub locked : Invitation
  pub was : find_row invitation_id visible.id h.invitations ≡ some locked
  pub locked_open : IsOpenAt input locked
  pub expected : locked.version ≡ input.expected_invitation_version
  pub stranger : All (λ m. m.auth_user_id ≢ some context.auth_user_id) h.memberships
  pub free : find_row membership_id input.membership_id h.memberships ≡ none
  pub members :
      (k : String)
      → find_row membership_id k g.memberships ≡ (
          if input.membership_id == k
          then some (record {
            id = input.membership_id;
            person_id = input.person_id;
            role = locked.role;
            active = true;
            auth_user_id = some context.auth_user_id;
            version = 1;
          })
          else find_row membership_id k h.memberships)
  pub invitations :
      (k : String)
      → find_row invitation_id k g.invitations ≡ (
          if visible.id == k
          then some (record locked {
            accepted_at = some input.accepted_at;
            accepted_by = some context.auth_user_id;
            version = locked.version + 1;
          })
          else find_row invitation_id k h.invitations)
  pub counted : g.version ≡ h.version + 1
  pub answer : a ≡ joined h.id h.name g.version input.membership_id locked.role 1

-- An invitation is accepted only through its token, by the address that it was sent to, before it
-- expires, while it is neither accepted nor revoked, at the version that the account has seen, and by an
-- account that is no member yet. The account then has an active membership with the role of the
-- invitation, the invitation is marked with the account and the time, no other membership or invitation
-- is changed, and the household counts one version.
pub accept-Accepts :
    (context : AccountContext) (input : AcceptanceInput) (h g : Household) (a : Response)
    → accept context input h ≡ ok (a, g)
    → Accepts context input h g a
accept-Accepts context input h g a e =
    let t = accept-Traced context input h g a e in
    let (free, members) =
      insert_row-view membership_id (new_membership context input t.locked.role) h.memberships
        g.memberships t.members in
    let same_id = find_row-key invitation_id t.visible.id h.invitations t.locked t.was in
    let u =
      update_row-Updated invitation_id t.locked.id (may_accept input.expected_invitation_version)
        (accepted_invitation context input.accepted_at) h.invitations t.changed g.invitations
        (λ row. refl) t.taken in
    let old = λ (k : String). find_row invitation_id k h.invitations in
    let row_is : u.row ≡ t.locked = cc (u.was, t.was, same_id) in
    let changed_is = u.changed ∙ ap (accepted_invitation context input.accepted_at) row_is in
    record {
      visible = t.visible;
      found = t.tokened;
      token =
          (string_eq.beq_iff t.visible.token_hash input.token_hash).0
            (find_sound (λ i. i.token_hash == input.token_hash) h.invitations t.tokened);
      visible_open = is_open-IsOpenAt input t.visible t.opened;
      locked = t.locked;
      was = t.was;
      locked_open = is_open-IsOpenAt input t.locked t.still;
      expected = t.expected;
      stranger = strangers context.auth_user_id h.memberships t.stranger;
      free = free;
      members = members;
      invitations = λ k.
          subst
            (λ r.
              find_row invitation_id k g.invitations ≡ put_at invitation_id t.visible.id r old k)
            changed_is
            (subst
              (λ id.
                find_row invitation_id k g.invitations ≡ put_at invitation_id id t.changed old k)
              same_id (u.view k));
      counted = t.counted;
      answer = t.answer;
    }
