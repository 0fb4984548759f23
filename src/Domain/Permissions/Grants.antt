-- ===== src/Domain/Permissions/Grants.antt =====
-- permits: exactly who may do what, and how grants bear on it.
use legacy_vault.Base.{
  ℕ, ◌≡◌, ◌↔◌, ◌⊎◌, ◌<◌, ◌≤◌, String, true, false, Option, none, some, List, arith, contains, Any,
  any_iff, Bool-cases, Option-cases, inl, inr, ◌==◌, Dates, truthy, truthy?,
}
use legacy_vault.Domain.Enums.{
  action_eq, Role, PermissionAction, RecordCategory, owner, co_owner, editor, family_helper,
  professional_advisor, read_only_viewer, emergency_recipient, support_agent, platform_admin, read,
  create, update, category_eq,
}
use legacy_vault.Domain.Entities.{PermissionGrant}
use legacy_vault.Domain.Permissions.{role_actions, is_owner, is_grant_active, covers, permits}

-- An instant that was read from a text is there, and stands at or before n; or after n.
abbrev pub NotAfter : Option ℕ → ℕ → Type 0
NotAfter none n = ⊥
NotAfter (some t) n = t ≤ n

abbrev pub After : Option ℕ → ℕ → Type 0
After none n = ⊥
After (some t) n = n < t

-- The grant has no expiry (JavaScript takes the empty text for none), or one that lies after n.
abbrev pub Unexpired : Dates → Option String → ℕ → Type 0
Unexpired dates none n = Unit
Unexpired dates (some text) n = (truthy text ≡ false) ⊎ After (dates.parse text) n

-- The grant is in force at the instant n.
pub record InForce (dates : Dates) (g : PermissionGrant) (n : ℕ) : Type 0 where
  pub kept : truthy? g.revoked_at ≡ false
  pub begun : NotAfter (dates.parse g.starts_at) n
  pub unexpired : Unexpired dates g.expires_at n

-- What a role has at all, each on every category that it is let into.
abbrev pub MayEver : Role → PermissionAction → Type 0
MayEver owner action = Unit
MayEver co_owner action = Unit
MayEver editor action = (action ≡ read) ⊎ (action ≡ create) ⊎ (action ≡ update)
MayEver family_helper action = (action ≡ read) ⊎ (action ≡ create) ⊎ (action ≡ update)
MayEver professional_advisor action = (action ≡ read) ⊎ (action ≡ create) ⊎ (action ≡ update)
MayEver read_only_viewer action = action ≡ read
MayEver emergency_recipient action = action ≡ read
MayEver support_agent action = action ≡ read
MayEver platform_admin action = ⊥

-- At an instant, a grant is active exactly if it is in force: not revoked, begun and, if it has an
-- expiry, before that.
is_grant_active_iff :
    (dates : Dates) (g : PermissionGrant) (at : String) (n : ℕ)
    → dates.parse at ≡ some n
    → (is_grant_active dates g at ≡ true) ↔ InForce dates g n
unfolding is_grant_active
is_grant_active_iff dates g at n h = ground arith

-- The grant is in force at the time, and names the category and the action.
pub record Gives (dates : Dates) (category : RecordCategory) (action : PermissionAction)
    (at : String) (g : PermissionGrant) : Type 0 where
  pub n : ℕ
  pub time : dates.parse at ≡ some n
  pub in_force : InForce dates g n
  pub names : Any (λ c. c ≡ category) g.categories
  pub allows : Any (λ a. a ≡ action) g.actions

contains-Any_category :
    (l : List RecordCategory) (c : RecordCategory) → (contains l c ≡ true) ↔ Any (λ x. x ≡ c) l
contains-Any_category l c = any_iff (λ x. x == c) (λ x. x ≡ c) (λ x. category_eq.beq_iff x c) l

contains-Any_action :
    (l : List PermissionAction) (c : PermissionAction) → (contains l c ≡ true) ↔ Any (λ x. x ≡ c) l
contains-Any_action l c = any_iff (λ x. x == c) (λ x. x ≡ c) (λ x. action_eq.beq_iff x c) l

role_actions_iff :
    (role : Role) (action : PermissionAction)
    → (contains (role_actions role) action ≡ true) ↔ MayEver role action
role_actions_iff role action = ground arith

covers_iff :
    (dates : Dates) (category : RecordCategory) (action : PermissionAction) (at : String)
    (g : PermissionGrant)
    → (covers dates category action at g ≡ true) ↔ Gives dates category action at g
unfolding covers is_grant_active
covers_iff dates category action at g =
    let (listed, lists) = contains-Any_category g.categories category in
    let (named, names) = contains-Any_action g.actions action in
    elim (Option-cases (dates.parse at)) [
      | inl absent ↦
          ((λ h. absurd (ground (arith, absent))), (λ x. absurd (ground (arith, x.time, absent))))
      | inr (n, time) ↦ (
        (λ h. record {
          n = n;
          time = time;
          in_force = (is_grant_active_iff dates g at n time).0 (ground arith);
          names = listed (ground arith);
          allows = named (ground arith);
        }),
        (λ x.
            let active = (is_grant_active_iff dates g at x.n x.time).1 x.in_force in
            let l = lists x.names in let n = names x.allows in ground (arith, active, l, n)),
      )
    ]

-- A role without an action never has it: an owner and a co-owner have every action; an editor, a helper
-- and an advisor read, create and update; a viewer, an emergency recipient and a support agent read; a
-- platform administrator has none. Owners and co-owners need no more; anybody else has an action of the
-- role exactly through a grant that is in force and names the category and the action.
pub permits_iff :
    (dates : Dates) (role : Role) (grants : List PermissionGrant) (category : RecordCategory)
    (action : PermissionAction) (at : String)
    → (permits dates role grants category action at ≡ true) ↔ (
        MayEver role action
        × ((role ≡ owner) ⊎ (role ≡ co_owner) ⊎ Any (Gives dates category action at) grants))
unfolding permits
permits_iff dates role grants category action at =
    let role_lem = role_actions_iff role action in
    let grants_lem =
      any_iff (covers dates category action at) (Gives dates category action at)
        (covers_iff dates category action at) grants in
    elim (Bool-cases (is_owner role)) [
      | inl owns ↦ ground (arith, role_lem)
      | inr other ↦ ground (arith, role_lem, grants_lem)
    ]
