-- ===== src/Repository/Tests/Households.antt =====
-- A household with its owner and one invitation, which is accepted.
use legacy_vault.Base.{
  if◌then◌else◌, ◌==◌, filter, is_text, ◌≡◌, ◌≢◌, refl, true, false, none, some, List, [], ◌∷◌, All,
  ok, err, string_eq, String,
}
use legacy_vault.Domain.Enums.{owner, editor, co_owner}
use legacy_vault.Repository.Transactions.{AccountContext, with_tenant}
use legacy_vault.Repository.Rows.{find_row}
use legacy_vault.Repository.Members.Onboarding.{
  Directory, OnboardingInput, Onboarded, household_id, membership_taken, first_membership,
  new_household, onboard,
}
use legacy_vault.Repository.Members.Founders.{onboard-owner}
use legacy_vault.Repository.Idempotency.{Request, idempotent}
use legacy_vault.Repository.Idempotency.Replays.{run_requests, idempotent_once}
use legacy_vault.Repository.Members.{
  Household, Invitation, Membership, Response, Tables, joined, role_updated, change_role,
}
use legacy_vault.Repository.Members.Acceptance.{AcceptanceInput, accept}
use legacy_vault.Repository.Members.Joins.{Accepts, accept-Accepts}
use legacy_vault.Repository.Members.Owners.{is_owner, IsSound, Keeps}
use legacy_vault.Repository.Members.History.{
  MembersCall, accept_call, role_call, run_calls, run_calls-Keeps,
}
use legacy_vault.Repository.Transactions.{idempotency_conflict, still_processing}

abbrev invitation : Invitation
invitation = record {
  id = "i";
  email_hash = "mail";
  token_hash = "token";
  role = editor;
  invited_by = "p";
  expires_at = 9;
  accepted_at = none;
  accepted_by = none;
  revoked_at = none;
  version = 1;
}

abbrev first_owner : Membership
first_owner = record {
  id = "m";
  person_id = "p";
  role = owner;
  active = true;
  auth_user_id = some "u";
  version = 1;
}

abbrev helper : Membership
helper = record {
  id = "n";
  person_id = "q";
  role = editor;
  active = true;
  auth_user_id = some "w";
  version = 1;
}

abbrev household : Household
household = record {
  id = "h";
  organization_id = "o";
  name = "home";
  version = 1;
  invitations = invitation ∷ [];
  memberships = first_owner ∷ helper ∷ [];
  people = [];
}

abbrev account : AccountContext
account = record { auth_user_id = "v" }

abbrev input : AcceptanceInput
input = record {
  idempotency_key = "k";
  token_hash = "token";
  email_hash = "mail";
  expected_invitation_version = 1;
  person_id = "r";
  membership_id = "l";
  display_name = record { bytes = []; key_version = 1 };
  accepted_at = 5;
}

abbrev joined_household : Household
joined_household = record household {
  version = 2;
  invitations =
      record invitation { accepted_at = some 5; accepted_by = some "v"; version = 2 } ∷ [];
  memberships =
      first_owner
      ∷ helper
      ∷ record {
        id = "l";
        person_id = "r";
        role = editor;
        active = true;
        auth_user_id = some "v";
        version = 1;
      }
      ∷ [];
  people = record { id = "r"; display_name = record { bytes = []; key_version = 1 } } ∷ [];
}

accepts : accept account input household ≡ ok (joined "h" "home" 2 "l" editor 1, joined_household)
unfolding accept is_text
accepts = refl

accept-Accepts_example :
    Accepts account input household joined_household (joined "h" "home" 2 "l" editor 1)
accept-Accepts_example =
    accept-Accepts account input household joined_household (joined "h" "home" 2 "l" editor 1)
      accepts

household-IsSound : All IsSound household.invitations
household-IsSound = (record { assignable = refl; once = refl; by = refl }, tt)

abbrev tables : Tables
tables = ([], household)

abbrev calls : List MembersCall
calls =
    accept_call account [] "hash" input
    ∷ role_call "k1" "x" "m" co_owner 1
    ∷ role_call "k2" "y" "l" co_owner 1
    ∷ []

run_calls-Keeps_example : Keeps household (run_calls calls tables).1
run_calls-Keeps_example = run_calls-Keeps calls tables household-IsSound

abbrev promotion : Request Response Household
promotion = record {
  idempotency_key = "k";
  request_hash = "x";
  status_code = some 200;
  conflict = idempotency_conflict;
  processing = still_processing;
  operation = change_role "n" co_owner 1;
}

abbrev promoted : Household
promoted = record household {
  version = 2;
  memberships = first_owner ∷ record helper { role = co_owner; version = 2 } ∷ [];
}

abbrev after : Tables
after = (
  record {
    idempotency_key = "k";
    request_hash = "x";
    status_code = some 200;
    response_body = some (role_updated "n" co_owner 2 2);
  }
      ∷ [],
  promoted,
)

promotes : idempotent promotion tables ≡ ok (role_updated "n" co_owner 2 2, after)
unfolding idempotent change_role
promotes = refl

idempotent_once_example :
    let now = run_requests (promotion ∷ []) after in
    (with_tenant (idempotent promotion) now ≡ (ok (role_updated "n" co_owner 2 2), now))
    × ((other : Request Response Household)
        → other.idempotency_key ≡ "k"
        → other.request_hash ≢ "x"
        → with_tenant (idempotent other) now ≡ (err other.conflict, now))
idempotent_once_example =
    idempotent_once promotion tables after (role_updated "n" co_owner 2 2) (promotion ∷ []) promotes

abbrev founding : OnboardingInput
founding = record {
  idempotency_key = "k";
  organization_id = "o";
  organization_name = "family";
  household_id = "h";
  household_name = "home";
  person_id = "p";
  membership_id = "m";
  display_name = record { bytes = []; key_version = 1 };
  household_key_id = "key";
  wrapped_household_key = "{}";
}

abbrev nowhere : Directory
nowhere = record { organizations = []; households = []; household_keys = [] }

abbrev answer : Onboarded
answer = record {
  household_id = "h";
  household_name = "home";
  household_version = 1;
  membership_id = "m";
  role = owner;
  membership_version = 1;
}

abbrev founded : Directory
founded = record {
  organizations = record { id = "o"; name = "family" } ∷ [];
  households = new_household account founding ∷ [];
  household_keys =
      record { id = "key"; household_id = "h"; key_version = 1; wrapped_key = "{}" } ∷ [];
}

onboards : onboard account founding nowhere ≡ ok (answer, founded)
unfolding onboard
onboards = refl

onboard-owner_example :
    (find_row household_id "h" [] ≡ none)
    × ((k : String)
        → find_row household_id k founded.households
          ≡ (if "h" == k then some (new_household account founding) else none))
    × (membership_taken founding.membership_id [] ≡ false)
    × (filter is_owner (run_calls calls ([], new_household account founding)).1.memberships
        ≡ first_membership account founding ∷ [])
onboard-owner_example = onboard-owner account founding nowhere founded answer [] calls onboards
