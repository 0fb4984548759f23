-- ===== src/Reports/Portable/Tests.antt =====
-- An export of one entry, with the cipher of the crypto tests.
use mathlib.Core.List.{Perm}
use legacy_vault.Base.{
  map, ◌≡◌, refl, true, none, some, List, [], ◌∷◌, ok, same_items_iff, nat_eq, starts_with,
}
use legacy_vault.Crypto.Envelopes.{EncryptedEnvelope}
use legacy_vault.Crypto.Samples.{node, node-OpensSealed, long_key, pack}
use legacy_vault.Samples.{sample_dates, noon}
use legacy_vault.Reports.Portable.{
  InnerExportEntry, InnerExportManifest, PortableExportContainer, Exports, ExportInput,
  is_unsafe_path, has_char, segments, is_media_type, is_name_start, is_name_char, is_type_rest,
  is_name, is_name_rest,
}
use legacy_vault.Reports.Portable.Entries.{
  inner_entry, inner_bytes, manifest_bytes, container_bytes, insert_by_path, sort_by_path,
}
use legacy_vault.Reports.Portable.Opening.{
  inner_of, container_of, create_portable_export, verify_and_open_portable_export,
}
use legacy_vault.Reports.Portable.Sound.{IsOrder, IsSorted, IsExportable}
use legacy_vault.Reports.Portable.RoundTrip.{
  VerifiesSigned, made_container, made_inner, create_portable_export-open,
}

node-VerifiesSigned : VerifiesSigned node
node-VerifiesSigned private public m h = (same_items_iff m m).1 refl

abbrev input : ExportInput
input = record {
  archive_id = "a";
  organization_id = "o";
  household_id = "h";
  created_at = noon;
  key_version = 1;
  export_key = long_key;
  signing_key = "k";
  entries =
      record { path = "facts/contacts.json"; media_type = "application/json"; bytes = 4 ∷ 2 ∷ [] }
      ∷ [];
}

abbrev entries : List InnerExportEntry
entries =
    record {
      path = "facts/contacts.json";
      media_type = "application/json";
      sha256 = "d";
      size = 2;
      content_base64 = pack (4 ∷ 2 ∷ []);
    }
    ∷ []

-- Without its parsers.
abbrev unread : Exports
unread = record {
  engine = record { quote = λ s. s; precedes = λ a b. true };
  node = node;
  dates = sample_dates;
  sha256 = λ b. "d";
  read_container = λ b. none;
  read_inner = λ b. none;
}

abbrev envelope : EncryptedEnvelope
envelope = record {
  algorithm = "A256GCM";
  key_version = 1;
  iv = pack (9 ∷ []);
  ciphertext = pack (1 ∷ []);
  authentication_tag = pack (1 ∷ []);
}

abbrev inner : InnerExportManifest
inner = inner_of unread input entries

abbrev container : PortableExportContainer
container = container_of unread input envelope ("k", "k")

abbrev exports : Exports
exports = record unread { read_container = λ b. some container; read_inner = λ b. some inner }

is_order : IsOrder exports.engine
is_order = record { total = λ a b h. cc; transitive = λ a b c h k. refl }

is_exportable : IsExportable exports input "k"
unfolding is_unsafe_path starts_with has_char segments is_media_type is_name_start is_name_char
    is_type_rest is_name is_name_rest
is_exportable = record {
  archive = refl;
  organization = refl;
  household = refl;
  time = refl;
  safe = (record { path = refl; media = refl }, tt);
  distinct = (tt, tt);
  long = refl;
  version = refl;
  signer = refl;
}

reads :
    exports.read_container (container_bytes exports (made_container exports (9 ∷ []) input "k"))
    ≡ some (made_container exports (9 ∷ []) input "k")
unfolding manifest_bytes inner_bytes sort_by_path insert_by_path
reads = refl

reads_inner :
    exports.read_inner (inner_bytes exports (made_inner exports (9 ∷ []) input "k"))
    ≡ some (made_inner exports (9 ∷ []) input "k")
unfolding sort_by_path insert_by_path
reads_inner = refl

create_portable_export-open_example :
    (create_portable_export exports (9 ∷ []) input
      ≡ ok (container_bytes exports (made_container exports (9 ∷ []) input "k")))
    × (verify_and_open_portable_export exports
          (container_bytes exports (made_container exports (9 ∷ []) input "k"))
          long_key
          "k"
        ≡ ok (made_inner exports (9 ∷ []) input "k"))
    × IsSorted exports.engine (made_inner exports (9 ∷ []) input "k").entries
    × Perm (map (inner_entry exports) input.entries) (made_inner exports (9 ∷ []) input "k").entries
create_portable_export-open_example =
    create_portable_export-open exports (9 ∷ []) input "k" node-OpensSealed node-VerifiesSigned
      is_order is_exportable reads reads_inner
