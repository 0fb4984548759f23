-- ===== src/Reports/Portable/Entries.antt =====
-- packages/reports/src/index.ts: the texts that are signed and sealed, and the entries of an export.
use legacy_vault.Base.{
  ℕ, String, Bool, not, ◌&&◌, List, [], ◌∷◌, length, contains, ◌==◌, nat_eq, string_eq,
  if◌then◌else◌, Result, ok, ◌>>=◌, ◌>>◌, throw_if,
}
use legacy_vault.Base.Json.{Json, num, str, arr, obj, Items, nil, cons, end, field, canonicalize}
use legacy_vault.Crypto.Envelopes.{EncryptedEnvelope}
use legacy_vault.Reports.Portable.{
  PortableExportError, path_duplicated, payload_duplicated, entry_digest_invalid,
  PortableExportEntry, InnerExportEntry, InnerExportManifest, PublicExportManifest,
  PortableExportContainer, Exports, assert_entry,
}

module _ (x : Exports) where
  abbrev number : ℕ → Json
  number n = num (x.node.decimal n)

  abbrev entry_json : InnerExportEntry → Json
  entry_json e = obj (
      field "path" (str e.path) (
        field "mediaType" (str e.media_type) (
          field "sha256" (str e.sha256)
            (field "size" (number e.size) (field "contentBase64" (str e.content_base64) end)))))

  abbrev entry_items : List InnerExportEntry → Items
  entry_items [] = nil
  entry_items (e ∷ entries) = cons (entry_json e) (entry_items entries)

  abbrev inner_json : InnerExportManifest → Json
  inner_json m = obj (
      field "format" (str m.format) (
        field "archiveId" (str m.archive_id) (
          field "organizationId" (str m.organization_id) (
            field "householdId" (str m.household_id) (
              field "createdAt" (str m.created_at)
                (field "entries" (arr (entry_items m.entries)) end))))))

  abbrev envelope_json : EncryptedEnvelope → Json
  envelope_json e = obj (
      field "algorithm" (str e.algorithm) (
        field "keyVersion" (number e.key_version) (
          field "iv" (str e.iv) (
            field "ciphertext" (str e.ciphertext)
              (field "authenticationTag" (str e.authentication_tag) end)))))

  abbrev manifest_json : PublicExportManifest → Json
  manifest_json m = obj (
      field "format" (str m.format) (
        field "archiveId" (str m.archive_id) (
          field "createdAt" (str m.created_at) (
            field "encryption" (str m.encryption) (
              field "keyVersion" (number m.key_version)
                (field "envelopeSha256" (str m.envelope_sha256) end))))))

  abbrev container_json : PortableExportContainer → Json
  container_json c = obj (
      field "manifest" (manifest_json c.manifest) (
        field "envelope" (envelope_json c.envelope) (
          field "signature" (str c.signature)
            (field "signerPublicKey" (str c.signer_public_key) end))))

  -- `Buffer.from(canonicalReportValue(value), "utf8")`
  abbrev pub canonical_report_bytes : Json → List ℕ
  canonical_report_bytes value = x.node.utf8 (canonicalize x.engine value)

  unfoldable pub inner_bytes : InnerExportManifest → List ℕ
  inner_bytes m = canonical_report_bytes (inner_json m)

  unfoldable pub envelope_bytes : EncryptedEnvelope → List ℕ
  envelope_bytes e = canonical_report_bytes (envelope_json e)

  unfoldable pub manifest_bytes : PublicExportManifest → List ℕ
  manifest_bytes m = canonical_report_bytes (manifest_json m)

  unfoldable pub container_bytes : PortableExportContainer → List ℕ
  container_bytes c = canonical_report_bytes (container_json c)

  abbrev pub inner_entry : PortableExportEntry → InnerExportEntry
  inner_entry e = record {
    path = e.path;
    media_type = e.media_type;
    sha256 = x.sha256 e.bytes;
    size = length e.bytes;
    content_base64 = x.node.to_base64 e.bytes;
  }

  -- The entries in the order given, with the paths seen before.
  unfoldable pub inner_entries :
      List String → List PortableExportEntry → Result PortableExportError (List InnerExportEntry)
  inner_entries paths [] = ok []
  inner_entries paths (e ∷ entries) = do
    assert_entry e.path e.media_type
    throw_if (contains paths e.path) path_duplicated
    rest ← inner_entries (e.path ∷ paths) entries
    ok (inner_entry e ∷ rest)

  -- The stable sort by path.
  unfoldable pub insert_by_path : InnerExportEntry → List InnerExportEntry → List InnerExportEntry
  insert_by_path e [] = e ∷ []
  insert_by_path e (f ∷ entries) =
      let rest = insert_by_path e entries in
      if x.engine.precedes e.path f.path then e ∷ f ∷ entries else f ∷ rest

  unfoldable pub sort_by_path : List InnerExportEntry → List InnerExportEntry
  sort_by_path [] = []
  sort_by_path (e ∷ entries) = insert_by_path e (sort_by_path entries)

  abbrev pub is_intact : InnerExportEntry → Bool
  is_intact e =
      length (x.node.from_base64 e.content_base64) == e.size
      && x.sha256 (x.node.from_base64 e.content_base64) == e.sha256

  -- The loop over the entries of an opened export.
  unfoldable pub check_entries :
      List String → List InnerExportEntry → Result PortableExportError (Unit {0})
  check_entries seen [] = ok tt
  check_entries seen (e ∷ entries) = do
    assert_entry e.path e.media_type
    throw_if (contains seen e.path) payload_duplicated
    throw_if (not (is_intact e)) entry_digest_invalid
    check_entries (e.path ∷ seen) entries
