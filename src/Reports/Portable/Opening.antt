-- ===== src/Reports/Portable/Opening.antt =====
-- packages/reports/src/index.ts: createPortableExport and verifyAndOpenPortableExport.
use legacy_vault.Base.{
  ℕ, String, Bool, not, ◌&&◌, ◌||◌, List, [], is_some, truthy, ◌==◌, nat_eq, string_eq, Result, ok,
  err, ◌>>=◌, ◌>>◌, ok_or, throw_if,
}
use legacy_vault.Crypto.Envelopes.{
  CryptographicEnvelopeError, EncryptedEnvelope, encrypt_envelope, decrypt_envelope,
  export_manifest_signer, sign_manifest, verify_manifest,
}
use legacy_vault.Reports.Portable.{
  PortableExportError, identity_incomplete, time_invalid, envelope_error, container_invalid,
  metadata_invalid, envelope_digest_invalid, signature_invalid, decryption_failed, payload_invalid,
  PortableExportContainer, PublicExportManifest, InnerExportManifest, InnerExportEntry, Exports,
  ExportInput, export_context,
}
use legacy_vault.Reports.Portable.Entries.{
  inner_bytes, envelope_bytes, manifest_bytes, container_bytes, inner_entries, sort_by_path,
  check_entries,
}

-- An error of packages/crypto passes through createPortableExport.
abbrev pub from_crypto :
    {A : Type 0} → Result CryptographicEnvelopeError A → Result PortableExportError A
from_crypto (ok a) = ok a
from_crypto (err e) = err envelope_error

-- In verifyAndOpenPortableExport it is caught.
abbrev pub or_failed :
    {A : Type 0} → Result CryptographicEnvelopeError A → Result PortableExportError A
or_failed (ok a) = ok a
or_failed (err e) = err decryption_failed

module _ (x : Exports) where
  abbrev pub inner_of : ExportInput → List InnerExportEntry → InnerExportManifest
  inner_of input entries = record {
    format = "legacy-vault-portable-export/v1";
    archive_id = input.archive_id;
    organization_id = input.organization_id;
    household_id = input.household_id;
    created_at = input.created_at;
    entries = entries;
  }

  abbrev pub manifest_of : ExportInput → EncryptedEnvelope → PublicExportManifest
  manifest_of input envelope = record {
    format = "legacy-vault-encrypted-export/v1";
    archive_id = input.archive_id;
    created_at = input.created_at;
    encryption = "A256GCM";
    key_version = input.key_version;
    envelope_sha256 = x.sha256 (envelope_bytes x envelope);
  }

  abbrev pub container_of :
      ExportInput → EncryptedEnvelope → String × String → PortableExportContainer
  container_of input envelope signer = record {
    manifest = manifest_of input envelope;
    envelope = envelope;
    signature = sign_manifest x.node signer.0 (manifest_bytes x (manifest_of input envelope));
    signer_public_key = signer.1;
  }

  -- `iv` are the random bytes of the envelope.
  unfoldable pub create_portable_export : List ℕ → ExportInput → Result PortableExportError (List ℕ)
  create_portable_export iv input = do
    throw_if
        (not (truthy input.archive_id)
          || (not (truthy input.organization_id) || not (truthy input.household_id)))
        identity_incomplete
    throw_if (not (is_some (x.dates.parse input.created_at))) time_invalid
    entries ← inner_entries x [] input.entries
    envelope ← from_crypto (
        encrypt_envelope x.node iv (inner_bytes x (inner_of input (sort_by_path x entries)))
          input.export_key (export_context input.archive_id input.key_version))
    signer ← from_crypto (export_manifest_signer x.node input.signing_key)
    ok (container_bytes x (container_of input envelope signer))

  unfoldable pub metadata_fits : PortableExportContainer → String → Bool
  metadata_fits c trusted =
      c.manifest.format == "legacy-vault-encrypted-export/v1"
      && (c.envelope.algorithm == "A256GCM"
          && (c.manifest.encryption == "A256GCM"
              && (c.manifest.key_version == c.envelope.key_version
                  && c.signer_public_key == trusted)))

  unfoldable pub payload_fits : PortableExportContainer → InnerExportManifest → Bool
  payload_fits c inner =
      inner.format == "legacy-vault-portable-export/v1"
      && (inner.archive_id == c.manifest.archive_id && inner.created_at == c.manifest.created_at)

  unfoldable pub verify_and_open_portable_export :
      (container export_key : List ℕ)
      → (trusted_public_key : String) → Result PortableExportError InnerExportManifest
  verify_and_open_portable_export container export_key trusted = do
    c ← ok_or container_invalid (x.read_container container)
    throw_if (not (metadata_fits c trusted)) metadata_invalid
    throw_if (not (x.sha256 (envelope_bytes x c.envelope) == c.manifest.envelope_sha256))
        envelope_digest_invalid
    throw_if (not (verify_manifest x.node (manifest_bytes x c.manifest) c.signature trusted))
        signature_invalid
    plaintext ← or_failed (
        decrypt_envelope x.node c.envelope export_key
          (export_context c.manifest.archive_id c.manifest.key_version))
    inner ← ok_or decryption_failed (x.read_inner plaintext)
    throw_if (not (payload_fits c inner)) payload_invalid
    check_entries x [] inner.entries
    ok inner
