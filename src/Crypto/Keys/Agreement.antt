-- ===== src/Crypto/Keys/Agreement.antt =====
-- Requests for one household's key that run at the same time: a request reads the table, and without an
-- active key it goes on behind the lock.
use legacy_vault.Base.{
  ℕ, ◌≡◌, refl, none, some, List, [], ◌∷◌, All, length, arith, nat_eq, string_eq, ok, err, Result,
}
use legacy_vault.Crypto.Envelopes.{
  NodeCrypto, context_text, WrappedHouseholdKey, create_wrapped_household_key, encrypt_envelope,
  associated_data, sealed, household_context,
}
use legacy_vault.Crypto.Envelopes.Opening.{
  OpensSealed, unwrap_household_key-create_wrapped_household_key,
}
use legacy_vault.Crypto.Keys.{
  HouseholdKeyContext, ActiveHouseholdKey, KeyRow, active, KeyStoreError, Fresh, open_key_store,
  latest_active, answer, create_key, after_lock, get_or_create_active_key, wrapped_household_key,
  stored_key,
}

-- A part of a request: its first read, what it does behind the lock, or all of it undisturbed.
pub data Event : Type 0 where
  looks : Event
  locks whole : Fresh → Event

abbrev Answer : Type 0
Answer = Result KeyStoreError ActiveHouseholdKey

module _ (node : NodeCrypto) (kek : List ℕ) (context : HouseholdKeyContext) where
  -- What throws is rolled back.
  abbrev kept :
      Result KeyStoreError (ActiveHouseholdKey × List KeyRow) → List KeyRow → Answer × List KeyRow
  kept (ok (key, after)) rows = (ok key, after)
  kept (err e) rows = (err e, rows)

  -- A first read without an active key answers nothing yet.
  abbrev pub run_events : List Event → List KeyRow → List Answer × List KeyRow
  run_events [] rows = ([], rows)
  run_events (looks ∷ events) rows =
      let (answers, after) = run_events events rows in
      elim (latest_active rows) [
        | none ↦ (answers, after)
        | some row ↦ (answer node kek context row ∷ answers, after)
      ]
  run_events (locks fresh ∷ events) rows =
      let (a, next) = kept (after_lock node kek context fresh rows) rows in
      let (answers, after) = run_events events next in (a ∷ answers, after)
  run_events (whole fresh ∷ events) rows =
      let (a, next) = kept (get_or_create_active_key node kek context fresh rows) rows in
      let (answers, after) = run_events events next in (a ∷ answers, after)

  -- The active row gives the key.
  record Gives (key : ActiveHouseholdKey) (rows : List KeyRow) : Type 0 where
    row : KeyRow
    found : latest_active rows ≡ some row
    gives : answer node kek context row ≡ ok key

  run_events-Gives :
      (events : List Event) (key : ActiveHouseholdKey) (rows : List KeyRow)
      → Gives key rows
      → All (λ a. a ≡ ok key) (run_events events rows).0
  unfolding after_lock get_or_create_active_key
  run_events-Gives [] key rows g = tt
  run_events-Gives (looks ∷ events) key rows g =
      let rest = run_events-Gives events key rows g in ground (arith, g.found, g.gives, rest)
  run_events-Gives (locks fresh ∷ events) key rows g =
      let rest = run_events-Gives events key rows g in ground (arith, g.found, g.gives, rest)
  run_events-Gives (whole fresh ∷ events) key rows g =
      let rest = run_events-Gives events key rows g in ground (arith, g.found, g.gives, rest)

  abbrev new_key : Fresh → WrappedHouseholdKey
  new_key fresh =
      let aad =
        node.utf8
          (context_text node (household_context context.organization_id context.household_id 1)) in
      let (ciphertext, tag) = node.encrypt kek fresh.iv aad fresh.plaintext_key in
      record { envelope = sealed node fresh.iv ciphertext tag 1; key_purpose = "household-dek" }

  new_key_lem :
      (fresh : Fresh)
      → open_key_store kek ≡ ok tt
      → create_wrapped_household_key node fresh.plaintext_key fresh.iv kek context.organization_id
          context.household_id 1
        ≡ ok (fresh.plaintext_key, new_key fresh)
  unfolding create_wrapped_household_key encrypt_envelope associated_data
  new_key_lem fresh long = ground (arith, nat_eq.beq_iff (length kek) 32)

  parsed : (fresh : Fresh) → wrapped_household_key (stored_key (new_key fresh)) ≡ ok (new_key fresh)
  unfolding wrapped_household_key
  parsed fresh = refl

  abbrev new_row : Fresh → KeyRow
  new_row fresh = record {
    id = fresh.id;
    key_version = 1;
    wrapped_key = stored_key (new_key fresh);
    status = active;
  }

  abbrev created : Fresh → ActiveHouseholdKey
  created fresh = record { key_version = 1; plaintext_key = fresh.plaintext_key }

  create_key-new_row :
      (fresh : Fresh)
      → open_key_store kek ≡ ok tt
      → create_key node kek context fresh [] ≡ ok (created fresh, new_row fresh ∷ [])
  unfolding create_key
  create_key-new_row fresh long = rw (new_key_lem fresh long) refl

  new_row-Gives :
      (fresh : Fresh)
      → OpensSealed node
      → open_key_store kek ≡ ok tt
      → Gives (created fresh) (new_row fresh ∷ [])
  unfolding latest_active answer
  new_row-Gives fresh laws long =
      let back =
        unwrap_household_key-create_wrapped_household_key node fresh.plaintext_key fresh.iv kek
          context.organization_id context.household_id 1 fresh.plaintext_key (new_key fresh) laws
          (new_key_lem fresh long) in
      record { row = new_row fresh; found = refl; gives = rw (parsed fresh, back.1) refl }

  -- Requests that run at the same time on a household without keys, their first reads and what they do
  -- behind the lock in any order, all get one key, where the cipher opens what it sealed and base64 keeps bytes.
  pub run_events_agree :
      (events : List Event)
      → OpensSealed node
      → open_key_store kek ≡ ok tt
      → (key : ActiveHouseholdKey) × All (λ a. a ≡ ok key) (run_events events []).0
  unfolding after_lock get_or_create_active_key latest_active
  run_events_agree [] laws long = (record { key_version = 1; plaintext_key = [] }, tt)
  run_events_agree (looks ∷ events) laws long = run_events_agree events laws long
  run_events_agree (locks fresh ∷ events) laws long =
      let rest =
        run_events-Gives events (created fresh) (new_row fresh ∷ [])
          (new_row-Gives fresh laws long) in
      (created fresh, ground (arith, create_key-new_row fresh long, rest))
  run_events_agree (whole fresh ∷ events) laws long =
      let rest =
        run_events-Gives events (created fresh) (new_row fresh ∷ [])
          (new_row-Gives fresh laws long) in
      (created fresh, ground (arith, create_key-new_row fresh long, rest))
