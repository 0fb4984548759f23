-- ===== src/Reports/Portable/RoundTrip.antt =====
-- An export that is made is opened to what was put into it.
use mathlib.Core.Path.{subst}
use mathlib.Core.List.{Perm}
use legacy_vault.Base.{
  ℕ, map, length, ◌≡◌, refl, sym, ap, String, true, some, List, nat_eq, string_eq, eq_self, ok,
  arith,
}
use legacy_vault.Crypto.Envelopes.{
  NodeCrypto, EncryptedEnvelope, context_text, sealed, associated_data, encrypt_envelope,
  export_manifest_signer, verify_manifest, sign_manifest,
}
use legacy_vault.Crypto.Envelopes.Opening.{
  OpensSealed, Seals, encrypt_envelope-Seals, decrypt_envelope-encrypt_envelope,
}
use legacy_vault.Reports.Portable.{
  InnerExportEntry, InnerExportManifest, PortableExportContainer, Exports, ExportInput,
  export_context,
}
use legacy_vault.Reports.Portable.Sound.{
  IsExportable, IsOrder, IsSorted, inner_entries-listed, sort_by_path-IsSorted, sort_by_path-Perm,
}
use legacy_vault.Reports.Portable.Entries.{
  inner_entry, inner_bytes, envelope_bytes, manifest_bytes, container_bytes, sort_by_path,
}
use legacy_vault.Reports.Portable.Sorted.{check_entries-sort_by_path}
use legacy_vault.Reports.Portable.Opening.{
  metadata_fits, payload_fits, inner_of, manifest_of, container_of, create_portable_export,
  verify_and_open_portable_export,
}

-- Ed25519: what a private key signs, its public key verifies.
abbrev pub VerifiesSigned : NodeCrypto → Type 0
VerifiesSigned node =
    (private public : String) (m : List ℕ)
    → node.public_key private ≡ some public
    → node.verifies m (node.signature private m) public ≡ true

metadata_fits-container :
    (x : Exports) (iv : List ℕ) (input : ExportInput) (entries : List InnerExportEntry)
    (envelope : EncryptedEnvelope) (public : String)
    → Seals x.node iv
        (inner_bytes x (inner_of x input entries))
        input.export_key
        (export_context input.archive_id input.key_version)
        envelope
    → metadata_fits x (container_of x input envelope (input.signing_key, public)) public ≡ true
unfolding metadata_fits
metadata_fits-container x iv input entries envelope public s =
    let algorithm : envelope.algorithm ≡ "A256GCM" = ap (λ e. e.algorithm) s.is in
    let version : envelope.key_version ≡ input.key_version = ap (λ e. e.key_version) s.is in
    ground (
      arith,
      string_eq.beq_iff envelope.algorithm "A256GCM",
      nat_eq.beq_iff input.key_version envelope.key_version,
      eq_self public,
    )

payload_fits-inner :
    (x : Exports) (input : ExportInput) (entries : List InnerExportEntry)
    (envelope : EncryptedEnvelope) (public : String)
    → payload_fits x
        (container_of x input envelope (input.signing_key, public))
        (inner_of x input entries)
      ≡ true
unfolding payload_fits
payload_fits-inner x input entries envelope public =
    ground (arith, eq_self input.archive_id, eq_self input.created_at)

-- What is made of an input: the payload with its entries sorted, its envelope and the container.
module _ (x : Exports) (iv : List ℕ) (input : ExportInput) (public : String) where
  abbrev pub made_entries : List InnerExportEntry
  made_entries = sort_by_path x (map (inner_entry x) input.entries)

  abbrev pub made_inner : InnerExportManifest
  made_inner = inner_of x input made_entries

  abbrev pub made_envelope : EncryptedEnvelope
  made_envelope =
      let aad =
        x.node.utf8 (context_text x.node (export_context input.archive_id input.key_version)) in
      let (ciphertext, tag) = x.node.encrypt input.export_key iv aad (inner_bytes x made_inner) in
      sealed x.node iv ciphertext tag input.key_version

  abbrev pub made_container : PortableExportContainer
  made_container = container_of x input made_envelope (input.signing_key, public)

  made_envelope_lem :
      IsExportable x input public
      → encrypt_envelope x.node iv
          (inner_bytes x made_inner)
          input.export_key
          (export_context input.archive_id input.key_version)
        ≡ ok made_envelope
  unfolding encrypt_envelope associated_data
  made_envelope_lem may =
      ground (arith, may.version, may.long, nat_eq.beq_iff (length input.export_key) 32)

-- An export of named parties at a readable time, with safe and distinct paths and with keys that the
-- crypto package accepts, is made, and opening it with the same export key and the signer's public
-- key gives back what was put in: the identities, the time and the entries, each with its bytes' digest
-- and size, which are those that were given in an order in which each path precedes the later ones.
-- Relied on: the cipher opens what it sealed, base64 keeps bytes, a signature is verified,
-- localeCompare orders paths, and JSON.parse reads the two texts that were written.
pub create_portable_export-open :
    (x : Exports) (iv : List ℕ) (input : ExportInput) (public : String)
    → OpensSealed x.node
    → VerifiesSigned x.node
    → IsOrder x.engine
    → IsExportable x input public
    → let inner = made_inner x iv input public in
      let bytes = container_bytes x (made_container x iv input public) in
      x.read_container bytes ≡ some (made_container x iv input public)
      → x.read_inner (inner_bytes x inner) ≡ some inner
      → (create_portable_export x iv input ≡ ok bytes)
        × (verify_and_open_portable_export x bytes input.export_key public ≡ ok inner)
        × IsSorted x.engine inner.entries
        × Perm (map (inner_entry x) input.entries) inner.entries
unfolding create_portable_export verify_and_open_portable_export export_manifest_signer
create_portable_export-open x iv input public laws signs order may reads reads_inner =
    let entries = map (inner_entry x) input.entries in
    let envelope = made_envelope x iv input public in
    let context = export_context input.archive_id input.key_version in
    let inner = made_inner x iv input public in
    let listed = inner_entries-listed x input.entries may.safe may.distinct in
    let enveloped = made_envelope_lem x iv input public may in
    let s =
      encrypt_envelope-Seals x.node iv (inner_bytes x inner) input.export_key context envelope
        enveloped in
    let back =
      decrypt_envelope-encrypt_envelope x.node iv (inner_bytes x inner) input.export_key context
        envelope laws enveloped in
    let manifest = manifest_bytes x (manifest_of x input envelope) in
    let sound : verify_manifest x.node manifest (sign_manifest x.node input.signing_key manifest)
          public
        ≡ true =
      subst (λ b. x.node.verifies manifest b public ≡ true)
        (sym (laws.base64 (x.node.signature input.signing_key manifest)))
        (signs input.signing_key public manifest may.signer) in
    let fits = metadata_fits-container x iv input (sort_by_path x entries) envelope public s in
    let pays = payload_fits-inner x input (sort_by_path x entries) envelope public in
    let checked = check_entries-sort_by_path x input.entries entries laws listed in
    (
      rw (may.archive, may.organization, may.household, may.time, listed, enveloped, may.signer)
          refl,
      rw
          (
            reads,
            fits,
            eq_self (x.sha256 (envelope_bytes x envelope)),
            sound,
            back,
            reads_inner,
            pays,
            checked,
          )
          refl,
      sort_by_path-IsSorted x order entries,
      sort_by_path-Perm x order entries,
    )
