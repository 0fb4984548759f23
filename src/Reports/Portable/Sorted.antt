-- ===== src/Reports/Portable/Sorted.antt =====
-- The entries of an export pass the checks of its opening, in whatever order they are sorted.
use mathlib.Core.Path.{subst}
use legacy_vault.Base.{
  ◌≡◌, refl, sym, ap, ◌∙◌, String, Bool, true, false, not, ◌&&◌, ◌||◌, List, [], ◌∷◌, length,
  contains, ◌==◌, nat_eq, string_eq, eq_self, if◌then◌else◌, Bool-cases, inl, inr, ok, Result-cases,
  All, arith,
}
use legacy_vault.Crypto.Envelopes.Opening.{OpensSealed}
use legacy_vault.Reports.Portable.{PortableExportEntry, InnerExportEntry, Exports, assert_entry}
use legacy_vault.Reports.Portable.Entries.{
  inner_entry, inner_entries, insert_by_path, sort_by_path, is_intact, check_entries,
}

-- No path stands twice, nor among those seen before.
fresh : List String → List InnerExportEntry → Bool
fresh seen [] = true
fresh seen (e ∷ entries) = not (contains seen e.path) && fresh (e.path ∷ seen) entries

fresh-seen :
    (s t : List String) (entries : List InnerExportEntry)
    → ((p : String) → contains s p ≡ contains t p)
    → fresh s entries ≡ fresh t entries
unfolding fresh
fresh-seen s t [] same = refl
fresh-seen s t (e ∷ entries) same = ground (
  arith,
  same e.path,
  fresh-seen (e.path ∷ s) (e.path ∷ t) entries (λ p. ap (λ b. (e.path == p) || b) (same p)),
)

fresh-swap :
    (seen : List String) (e f : InnerExportEntry) (entries : List InnerExportEntry)
    → fresh seen (e ∷ f ∷ entries) ≡ fresh seen (f ∷ e ∷ entries)
unfolding fresh
fresh-swap seen e f entries = ground (
  arith,
  string_eq.beq_iff e.path f.path,
  string_eq.beq_iff f.path e.path,
  fresh-seen (f.path ∷ e.path ∷ seen) (e.path ∷ f.path ∷ seen) entries (λ p. ground arith),
)

module _ (x : Exports) where
  fresh-insert :
      (seen : List String) (e : InnerExportEntry) (entries : List InnerExportEntry)
      → fresh seen (insert_by_path x e entries) ≡ fresh seen (e ∷ entries)
  unfolding insert_by_path fresh
  fresh-insert seen e [] = refl
  fresh-insert seen e (f ∷ entries) = elim (Bool-cases (x.engine.precedes e.path f.path)) [
    | inl h ↦ rw h refl
    | inr h ↦ rw h (
        ap (λ b. not (contains seen f.path) && b) (fresh-insert (f.path ∷ seen) e entries)
        ∙ fresh-swap seen f e entries)
  ]

  fresh-sort :
      (seen : List String) (entries : List InnerExportEntry)
      → fresh seen (sort_by_path x entries) ≡ fresh seen entries
  unfolding sort_by_path fresh
  fresh-sort seen [] = refl
  fresh-sort seen (e ∷ entries) =
      fresh-insert seen e (sort_by_path x entries)
      ∙ ap (λ b. not (contains seen e.path) && b) (fresh-sort (e.path ∷ seen) entries)

  -- An entry with a safe path and a media type, whose bytes have the digest and size that it states.
  record IsGood (e : InnerExportEntry) : Type 0 where
    safe : assert_entry e.path e.media_type ≡ ok tt
    intact : is_intact x e ≡ true

  intact_entry :
      OpensSealed x.node → (e : PortableExportEntry) → is_intact x (inner_entry x e) ≡ true
  intact_entry laws e =
      subst (λ c. (length c == length e.bytes && x.sha256 c == x.sha256 e.bytes) ≡ true)
        (sym (laws.base64 e.bytes))
        (ground (arith, eq_self (length e.bytes), eq_self (x.sha256 e.bytes)))

  insert-IsGood :
      (e : InnerExportEntry) (entries : List InnerExportEntry)
      → IsGood e
      → All IsGood entries
      → All IsGood (insert_by_path x e entries)
  unfolding insert_by_path
  insert-IsGood e [] g gs = (g, tt)
  insert-IsGood e (f ∷ entries) g (h, gs) = elim (Bool-cases (x.engine.precedes e.path f.path)) [
    | inl k ↦
        subst (λ b. All IsGood (if b then e ∷ f ∷ entries else f ∷ insert_by_path x e entries))
          (sym k) (g, (h, gs))
    | inr k ↦
        subst (λ b. All IsGood (if b then e ∷ f ∷ entries else f ∷ insert_by_path x e entries))
          (sym k) (h, insert-IsGood e entries g gs)
  ]

  sort-IsGood :
      (entries : List InnerExportEntry) → All IsGood entries → All IsGood (sort_by_path x entries)
  unfolding sort_by_path
  sort-IsGood [] gs = tt
  sort-IsGood (e ∷ entries) (g, gs) =
      insert-IsGood e (sort_by_path x entries) g (sort-IsGood entries gs)

  check_entries-IsGood :
      (seen : List String) (entries : List InnerExportEntry)
      → All IsGood entries
      → fresh seen entries ≡ true
      → check_entries x seen entries ≡ ok tt
  unfolding check_entries fresh
  check_entries-IsGood seen [] gs h = refl
  check_entries-IsGood seen (e ∷ entries) (g, gs) h =
      ground (arith, g.safe, g.intact, check_entries-IsGood (e.path ∷ seen) entries gs)

  inner_entries-IsGood :
      (seen : List String) (given : List PortableExportEntry) (entries : List InnerExportEntry)
      → OpensSealed x.node
      → inner_entries x seen given ≡ ok entries
      → All IsGood entries × (fresh seen entries ≡ true)
  unfolding inner_entries fresh
  inner_entries-IsGood seen [] entries laws h =
      subst (λ l. All IsGood l × (fresh seen l ≡ true)) {x = []} (ground arith) (tt, refl)
  inner_entries-IsGood seen (e ∷ given) entries laws h =
      elim (Result-cases (assert_entry e.path e.media_type)) [
        | inr (z, n) ↦ ground arith
        | inl (u, n) ↦ elim (Result-cases (inner_entries x (e.path ∷ seen) given)) [
          | inr (z, m) ↦ ground arith
          | inl (rest, m) ↦
              let (good, unseen) = inner_entries-IsGood (e.path ∷ seen) given rest laws m in
              let whole : inner_entry x e ∷ rest ≡ entries = ground arith in
              let new : contains seen e.path ≡ false = ground arith in
              subst (λ l. All IsGood l × (fresh seen l ≡ true)) whole
                ((record { safe = n; intact = intact_entry laws e }, good), ground arith)
        ]
      ]

  -- What createPortableExport lists passes the loop of verifyAndOpenPortableExport.
  pub check_entries-sort_by_path :
      (given : List PortableExportEntry) (entries : List InnerExportEntry)
      → OpensSealed x.node
      → inner_entries x [] given ≡ ok entries
      → check_entries x [] (sort_by_path x entries) ≡ ok tt
  check_entries-sort_by_path given entries laws h =
      let (good, unseen) = inner_entries-IsGood [] given entries laws h in
      check_entries-IsGood [] (sort_by_path x entries) (sort-IsGood entries good)
        (fresh-sort [] entries ∙ unseen)
