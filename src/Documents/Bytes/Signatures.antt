-- ===== src/Documents/Bytes/Signatures.antt =====
-- validateDocumentBytes: exactly which documents are accepted.
use legacy_vault.Base.{
  ℕ, ◌≤◌, ◌≡◌, ◌≢◌, ◌↔◌, ◌⊎◌, inl, inr, refl, String, true, some, List, [], ◌∷◌, ◌++◌, arith,
  length, take, find_sound, same_items, same_items_iff, nat_eq, string_eq, ok, Bool-cases,
  Option-cases,
}
use legacy_vault.Documents.Bytes.{
  SupportedDocumentType, pdf, jpeg, png, tiff, media_type, pdf_prefix, jpeg_prefix, png_prefix,
  tiff_little_prefix, tiff_big_prefix, signatures, has_byte, matches, detect,
  validate_document_bytes,
}

-- The bytes begin with those of the prefix.
abbrev pub StartsWith : (prefix bytes : List ℕ) → Type 0
StartsWith prefix bytes = (rest : List ℕ) × (bytes ≡ prefix ++ rest)

-- The file signature of a type, as its format defines it.
abbrev pub HasSignature : SupportedDocumentType → List ℕ → Type 0
HasSignature pdf bytes = StartsWith pdf_prefix bytes
HasSignature jpeg bytes = StartsWith jpeg_prefix bytes
HasSignature png bytes = StartsWith png_prefix bytes
HasSignature tiff bytes = StartsWith tiff_little_prefix bytes ⊎ StartsWith tiff_big_prefix bytes

take-StartsWith : (p bytes : List ℕ) → take (length p) bytes ≡ p → StartsWith p bytes
take-StartsWith [] bytes h = (bytes, refl)
take-StartsWith (b ∷ p) [] h = cc
take-StartsWith (b ∷ p) (c ∷ bytes) h = let (rest, e) = take-StartsWith p bytes cc in (rest, cc)

same-StartsWith :
    (p bytes : List ℕ) → same_items (take (length p) bytes) p ≡ true → StartsWith p bytes
same-StartsWith p bytes h = take-StartsWith p bytes ((same_items_iff _ _).0 h)

jpeg-StartsWith : (bytes : List ℕ) → matches jpeg bytes ≡ true → StartsWith jpeg_prefix bytes
unfolding matches has_byte
jpeg-StartsWith (a ∷ b ∷ c ∷ bytes) h = (bytes, ground arith)
jpeg-StartsWith [] h = cc
jpeg-StartsWith (a ∷ []) h = absurd (ground arith)
jpeg-StartsWith (a ∷ b ∷ []) h = absurd (ground arith)

matches-HasSignature :
    (t : SupportedDocumentType) (bytes : List ℕ) → matches t bytes ≡ true → HasSignature t bytes
unfolding matches
matches-HasSignature pdf bytes h = same-StartsWith pdf_prefix bytes h
matches-HasSignature jpeg bytes h = jpeg-StartsWith bytes h
matches-HasSignature png bytes h = same-StartsWith png_prefix bytes h
matches-HasSignature tiff bytes h =
    elim (Bool-cases (same_items (take 4 bytes) tiff_little_prefix)) [
      | inl e ↦ inl (same-StartsWith tiff_little_prefix bytes e)
      | inr e ↦ inr (same-StartsWith tiff_big_prefix bytes (ground arith))
    ]

-- No two signatures begin alike.
HasSignature-detect :
    (t : SupportedDocumentType) (bytes : List ℕ) → HasSignature t bytes → detect bytes ≡ some t
unfolding detect matches has_byte same_items
HasSignature-detect pdf bytes (rest, e) = rw e refl
HasSignature-detect jpeg bytes (rest, e) = rw e refl
HasSignature-detect png bytes (rest, e) = rw e refl
HasSignature-detect tiff bytes (inl (rest, e)) = rw e refl
HasSignature-detect tiff bytes (inr (rest, e)) = rw e refl

detect-HasSignature :
    (t : SupportedDocumentType) (bytes : List ℕ) → detect bytes ≡ some t → HasSignature t bytes
unfolding detect
detect-HasSignature t bytes h =
    matches-HasSignature t bytes (find_sound (λ u. matches u bytes) signatures h)

length-nil : (bytes : List ℕ) → (length bytes ≡ 0) ↔ (bytes ≡ [])
length-nil [] = ground arith
length-nil (b ∷ bytes) = ground arith

validate_lem :
    (bytes : List ℕ) (declared : String) (maximum : ℕ) (t : SupportedDocumentType)
    → (validate_document_bytes bytes declared maximum ≡ ok t) ↔ (
        (bytes ≢ [])
        × (length bytes ≤ maximum)
        × (detect bytes ≡ some t)
        × (declared ≡ media_type t))
unfolding validate_document_bytes
validate_lem bytes declared maximum t = elim (Option-cases (detect bytes)) [
  | inl e ↦ ground arith
  | inr (d, e) ↦ ground (arith, length-nil bytes, string_eq.beq_iff (media_type d) declared)
]

-- A document is accepted, as a document of a type, exactly when it is not empty and not longer than the
-- limit, begins with a signature of that type, and the type is the one that was declared.
pub validate_document_bytes_iff :
    (bytes : List ℕ) (declared : String) (maximum : ℕ) (t : SupportedDocumentType)
    → (validate_document_bytes bytes declared maximum ≡ ok t)
      ↔ ((bytes ≢ []) × (length bytes ≤ maximum) × HasSignature t bytes × (declared ≡ media_type t))
validate_document_bytes_iff bytes declared maximum t =
    let (to, from) = validate_lem bytes declared maximum t in
    (
      (λ h. let (a, b, c, d) = to h in (a, b, detect-HasSignature t bytes c, d)),
      (λ (a, b, c, d). from (a, b, HasSignature-detect t bytes c, d)),
    )
