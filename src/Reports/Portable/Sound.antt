-- ===== src/Reports/Portable/Sound.antt =====
-- Which inputs an export is made of, and what sorting does to its entries.
use mathlib.Core.List.{Perm}
use mathlib.Core.List.Perm
use legacy_vault.Base.{
  ◌≡◌, ◌≢◌, refl, String, true, false, List, [], ◌∷◌, map, length, contains, nat_eq, string_eq,
  truthy, is_some, some, ok, arith, All, Bool-cases, inl, inr,
}
use legacy_vault.Base.Json.{Engine}
use legacy_vault.Crypto.Envelopes.{is_version}
use legacy_vault.Reports.Portable.{
  PortableExportEntry, InnerExportEntry, Exports, ExportInput, is_unsafe_path, is_media_type,
  assert_entry,
}
use legacy_vault.Reports.Portable.Entries.{inner_entry, inner_entries, insert_by_path, sort_by_path}

-- An entry with a safe path and a media type.
pub record IsSafe (e : PortableExportEntry) : Type 0 where
  pub path : is_unsafe_path e.path ≡ false
  pub media : is_media_type e.media_type ≡ true

-- No path stands twice.
abbrev pub AreDistinct : List PortableExportEntry → Type 0
AreDistinct [] = Unit
AreDistinct (e ∷ entries) = All (λ f. e.path ≢ f.path) entries × AreDistinct entries

-- Named parties, a readable time, safe and distinct paths, and keys that the crypto package accepts.
pub record IsExportable (x : Exports) (input : ExportInput) (public : String) : Type 0 where
  pub archive : truthy input.archive_id ≡ true
  pub organization : truthy input.organization_id ≡ true
  pub household : truthy input.household_id ≡ true
  pub time : is_some (x.dates.parse input.created_at) ≡ true
  pub safe : All IsSafe input.entries
  pub distinct : AreDistinct input.entries
  pub long : length input.export_key ≡ 32
  pub version : is_version input.key_version ≡ true
  pub signer : x.node.public_key input.signing_key ≡ some public

still_unseen :
    (seen : List String) (e : PortableExportEntry) (entries : List PortableExportEntry)
    → All (λ f. e.path ≢ f.path) entries
    → All (λ f. contains seen f.path ≡ false) entries
    → All (λ f. contains (e.path ∷ seen) f.path ≡ false) entries
still_unseen seen e [] d h = tt
still_unseen seen e (f ∷ entries) (d, ds) (h, hs) =
    (ground (arith, d, string_eq.beq_iff e.path f.path), still_unseen seen e entries ds hs)

unseen_first : (entries : List PortableExportEntry) → All (λ f. contains [] f.path ≡ false) entries
unseen_first [] = tt
unseen_first (e ∷ entries) = (refl, unseen_first entries)

module _ (x : Exports) where
  listed_at :
      (seen : List String) (entries : List PortableExportEntry)
      → All IsSafe entries
      → AreDistinct entries
      → All (λ f. contains seen f.path ≡ false) entries
      → inner_entries x seen entries ≡ ok (map (inner_entry x) entries)
  unfolding inner_entries assert_entry
  listed_at seen [] s d h = refl
  listed_at seen (e ∷ entries) (s, ss) (d, ds) (h, hs) = ground (
    arith,
    s.path,
    s.media,
    listed_at (e.path ∷ seen) entries ss ds (still_unseen seen e entries d hs),
  )

  -- Safe entries with distinct paths are listed, each with its digest and size.
  pub inner_entries-listed :
      (entries : List PortableExportEntry)
      → All IsSafe entries
      → AreDistinct entries
      → inner_entries x [] entries ≡ ok (map (inner_entry x) entries)
  inner_entries-listed entries s d = listed_at [] entries s d (unseen_first entries)

-- localeCompare orders any two paths, and it is transitive.
pub record IsOrder (engine : Engine) : Type 0 where
  pub total : (a b : String) → engine.precedes a b ≡ false → engine.precedes b a ≡ true
  pub transitive :
      (a b c : String)
      → engine.precedes a b ≡ true
      → engine.precedes b c ≡ true
      → engine.precedes a c ≡ true

-- Each entry's path precedes those of the entries after it.
abbrev pub IsSorted : Engine → List InnerExportEntry → Type 0
IsSorted engine [] = Unit
IsSorted engine (e ∷ entries) =
    All (λ f. engine.precedes e.path f.path ≡ true) entries × IsSorted engine entries

module _ (x : Exports) (order : IsOrder x.engine) where
  precedes_trans :
      (a b : String) (entries : List InnerExportEntry)
      → x.engine.precedes a b ≡ true
      → All (λ f. x.engine.precedes b f.path ≡ true) entries
      → All (λ f. x.engine.precedes a f.path ≡ true) entries
  precedes_trans a b [] h k = tt
  precedes_trans a b (f ∷ entries) h (k, ks) =
      (order.transitive a b f.path h k, precedes_trans a b entries h ks)

  insert-All :
      (P : InnerExportEntry → Type 0) (e : InnerExportEntry) (entries : List InnerExportEntry)
      → P e
      → All P entries
      → All P (insert_by_path x e entries)
  unfolding insert_by_path
  insert-All P e [] p ps = (p, tt)
  insert-All P e (f ∷ entries) p (q, ps) = elim (Bool-cases (x.engine.precedes e.path f.path)) [
    | inl h ↦ rw h (p, (q, ps))
    | inr h ↦ rw h (q, insert-All P e entries p ps)
  ]

  insert-IsSorted :
      (e : InnerExportEntry) (entries : List InnerExportEntry)
      → IsSorted x.engine entries
      → IsSorted x.engine (insert_by_path x e entries)
  unfolding insert_by_path
  insert-IsSorted e [] s = (tt, tt)
  insert-IsSorted e (f ∷ entries) (s, ss) = elim (Bool-cases (x.engine.precedes e.path f.path)) [
    | inl h ↦ rw h ((h, precedes_trans e.path f.path entries h s), (s, ss))
    | inr h ↦ rw h (
      insert-All (λ g. x.engine.precedes f.path g.path ≡ true) e entries
          (order.total e.path f.path h) s,
      insert-IsSorted e entries ss,
    )
  ]

  pub sort_by_path-IsSorted :
      (entries : List InnerExportEntry) → IsSorted x.engine (sort_by_path x entries)
  unfolding sort_by_path
  sort_by_path-IsSorted [] = tt
  sort_by_path-IsSorted (e ∷ entries) =
      insert-IsSorted e (sort_by_path x entries) (sort_by_path-IsSorted entries)

  insert-Perm :
      (e : InnerExportEntry) (entries : List InnerExportEntry)
      → Perm (e ∷ entries) (insert_by_path x e entries)
  unfolding insert_by_path
  insert-Perm e [] = Perm.refl (e ∷ [])
  insert-Perm e (f ∷ entries) = elim (Bool-cases (x.engine.precedes e.path f.path)) [
    | inl h ↦ rw h (Perm.refl (e ∷ f ∷ entries))
    | inr h ↦ rw h (Perm.trans (Perm.swap f e entries) (Perm.cons f (insert-Perm e entries)))
  ]

  pub sort_by_path-Perm : (entries : List InnerExportEntry) → Perm entries (sort_by_path x entries)
  unfolding sort_by_path
  sort_by_path-Perm [] = Perm.refl []
  sort_by_path-Perm (e ∷ entries) =
      Perm.trans (Perm.cons e (sort_by_path-Perm entries)) (insert-Perm e (sort_by_path x entries))
