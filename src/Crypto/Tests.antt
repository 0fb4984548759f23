-- ===== src/Crypto/Tests.antt =====
-- A household key, wrapped and unwrapped.
use legacy_vault.Base.{◌≡◌, refl, String, List, [], ◌∷◌, All, ok}
use legacy_vault.Crypto.Keys.{HouseholdKeyContext, ActiveHouseholdKey, Fresh}
use legacy_vault.Crypto.Keys.Agreement.{Event, looks, locks, whole, run_events, run_events_agree}
use legacy_vault.Crypto.Samples.{node, node-OpensSealed, long_key, pack}
use legacy_vault.Crypto.Envelopes.{
  WrappedHouseholdKey, create_wrapped_household_key, unwrap_household_key, encrypt_envelope,
  associated_data,
}
use legacy_vault.Crypto.Envelopes.Opening.{unwrap_household_key-create_wrapped_household_key}

abbrev wrapped : WrappedHouseholdKey
wrapped = record {
  envelope = record {
    algorithm = "A256GCM";
    key_version = 1;
    iv = pack (9 ∷ []);
    ciphertext = pack long_key;
    authentication_tag = pack (1 ∷ []);
  };
  key_purpose = "household-dek";
}

wraps :
    create_wrapped_household_key node long_key (9 ∷ []) long_key "o" "h" 1 ≡ ok (long_key, wrapped)
unfolding create_wrapped_household_key encrypt_envelope associated_data
wraps = refl

unwrap_household_key-create_wrapped_household_key_example :
    (long_key ≡ long_key) × (unwrap_household_key node wrapped long_key "o" "h" ≡ ok long_key)
unwrap_household_key-create_wrapped_household_key_example =
    unwrap_household_key-create_wrapped_household_key node long_key (9 ∷ []) long_key "o" "h" 1
      long_key wrapped node-OpensSealed wraps

abbrev context : HouseholdKeyContext
context = record { organization_id = "o"; household_id = "h" }

abbrev fresh : String → Fresh
fresh id = record { id = id; plaintext_key = long_key; iv = 9 ∷ [] }

-- Two requests read before either has the lock.
abbrev events : List Event
events = looks ∷ looks ∷ locks (fresh "1") ∷ locks (fresh "2") ∷ whole (fresh "3") ∷ []

run_events_agree_example :
    (key : ActiveHouseholdKey) × All
      (λ a. a ≡ ok key)
      (run_events node long_key context events []).0
run_events_agree_example = run_events_agree node long_key context events node-OpensSealed refl
