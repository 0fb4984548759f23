-- ===== src/Crypto/Envelopes/Opening.antt =====
-- What is sealed in an envelope comes out again, for the context that it was sealed for.
use mathlib.Core.Path.{subst}
use legacy_vault.Base.{
  ℕ, ◌≡◌, sym, ap, Result-cases, String, true, some, List, length, arith, nat_eq, string_eq, ok,
  inl, inr, eq_self,
}
use legacy_vault.Crypto.Envelopes.{
  NodeCrypto, EncryptionContext, EncryptedEnvelope, WrappedHouseholdKey, is_version, context_text,
  associated_data, sealed, encrypt_envelope, decrypt_envelope, household_context,
  create_wrapped_household_key, unwrap_household_key,
}

-- What the code relies on: AES-256-GCM opens what it sealed under the same key, IV and associated data,
-- and base64 keeps bytes.
pub record OpensSealed (node : NodeCrypto) : Type 0 where
  pub opens :
      (key iv aad p : List ℕ)
      → node.decrypt key iv aad (node.encrypt key iv aad p).0 (node.encrypt key iv aad p).1 ≡ some p
  pub base64 : (b : List ℕ) → node.from_base64 (node.to_base64 b) ≡ b

-- What a sealed envelope is.
pub record Seals (node : NodeCrypto) (iv p key : List ℕ) (context : EncryptionContext)
    (e : EncryptedEnvelope) : Type 0 where
  pub long : length key ≡ 32
  pub versioned : is_version context.key_version ≡ true
  pub is :
      e
      ≡ sealed node iv
          (node.encrypt key iv (node.utf8 (context_text node context)) p).0
          (node.encrypt key iv (node.utf8 (context_text node context)) p).1
          context.key_version

pub encrypt_envelope-Seals :
    (node : NodeCrypto) (iv p key : List ℕ) (context : EncryptionContext) (e : EncryptedEnvelope)
    → encrypt_envelope node iv p key context ≡ ok e
    → Seals node iv p key context e
unfolding encrypt_envelope associated_data
encrypt_envelope-Seals node iv p key context e h = record {
  long = ground (arith, nat_eq.beq_iff (length key) 32);
  versioned = ground arith;
  is = ground arith;
}

-- An envelope is opened under the key and the context that it was made with.
pub decrypt_envelope-encrypt_envelope :
    (node : NodeCrypto) (iv p key : List ℕ) (context : EncryptionContext) (e : EncryptedEnvelope)
    → OpensSealed node
    → encrypt_envelope node iv p key context ≡ ok e
    → decrypt_envelope node e key context ≡ ok p
unfolding decrypt_envelope associated_data
decrypt_envelope-encrypt_envelope node iv p key context e laws h =
    let s = encrypt_envelope-Seals node iv p key context e h in
    let aad = node.utf8 (context_text node context) in
    let box = node.encrypt key iv aad p in
    let plain : node.decrypt key (node.from_base64 (node.to_base64 iv)) aad
          (node.from_base64 (node.to_base64 box.0)) (node.from_base64 (node.to_base64 box.1))
        ≡ some p =
      rw (laws.base64 iv, laws.base64 box.0, laws.base64 box.1) (laws.opens key iv aad p) in
    subst (λ e. decrypt_envelope node e key context ≡ ok p) (sym s.is)
      (ground (arith, plain, s.long, s.versioned, eq_self context.key_version))

-- A wrapped household key is unwrapped to the same key, under the same key-encryption key and for the same
-- organization and household, provided that the cipher opens what it sealed and base64 keeps bytes.
pub unwrap_household_key-create_wrapped_household_key :
    (node : NodeCrypto) (fresh iv kek : List ℕ) (organization_id household_id : String)
    (version : ℕ) (key : List ℕ) (wrapped : WrappedHouseholdKey)
    → OpensSealed node
    → create_wrapped_household_key node fresh iv kek organization_id household_id version
      ≡ ok (key, wrapped)
    → (key ≡ fresh) × (unwrap_household_key node wrapped kek organization_id household_id ≡ ok key)
unfolding create_wrapped_household_key unwrap_household_key
unwrap_household_key-create_wrapped_household_key node fresh iv kek o h version key wrapped laws e =
    let context = household_context o h version in
    elim (Result-cases (encrypt_envelope node iv fresh kek context)) [
      | inr (x, n) ↦ ground arith
      | inl (envelope, n) ↦
          let s = encrypt_envelope-Seals node iv fresh kek context envelope n in
          let back = decrypt_envelope-encrypt_envelope node iv fresh kek context envelope laws n in
          let whole : wrapped ≡ record { envelope = envelope; key_purpose = "household-dek" } =
            ground arith in
          let same : key ≡ fresh = ground arith in
          let version_is : envelope.key_version ≡ version = ap (λ e. e.key_version) s.is in
          (
            same,
            subst (λ w. unwrap_household_key node w kek o h ≡ ok key) (sym whole)
                (subst (λ v. decrypt_envelope node envelope kek (household_context o h v) ≡ ok key)
                  (sym version_is) (rw same back)),
          )
    ]
