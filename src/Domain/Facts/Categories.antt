-- ===== src/Domain/Facts/Categories.antt =====
-- recordCategoryFromFieldKey against the keys that begin with a category's text.
use Prim.Native.Char.{code}
use Prim.Native.String
use text.Mathlib.TextEquality.{Char-path, eq_iff}
use text.Mathlib.TextLemmas.{nil-append, cons-append}
use legacy_vault.Base.{
  ◌≡◌, ◌≢◌, ◌↔◌, ◌⊎◌, inl, inr, refl, sym, ap, String, some, ok, arith, nat_beq, truthy, true, ◌∙◌,
  find_sound, ◌==◌, string_eq, Bool-cases, nat_beq_iff,
}
use legacy_vault.Domain.Enums.{RecordCategory, contacts, category_name}
use legacy_vault.Domain.Facts.{
  all_record_categories, before_dot, category_of_name, record_category_from_field_key,
}

abbrev NoDot : String → Type 0
NoDot String.[] = Unit
NoDot (String.◌∷◌ c s) = (code c ≢ b'.') × NoDot s

-- The key is the category's text alone, or the text, a dot and anything.
abbrev pub BeginsWith : String → RecordCategory → Type 0
BeginsWith key c =
    (key ≡ category_name c)
    ⊎ ((rest : String) × (key ≡ String.◌++◌ (category_name c) (String.◌++◌ "." rest)))

name_NoDot : (c : RecordCategory) → NoDot (category_name c)
name_NoDot contacts = omega arith
name_NoDot _ = omega arith

before_dot-parts :
    (key : String)
    → (key ≡ before_dot key)
      ⊎ ((rest : String) × (key ≡ String.◌++◌ (before_dot key) (String.◌++◌ "." rest)))
unfolding before_dot
before_dot-parts String.[] = inl refl
before_dot-parts (String.◌∷◌ c s) = elim (Bool-cases (nat_beq (code c) b'.')) [
  | inl e ↦ inr (
    s,
    rw e (
        rw (nil-append, cons-append, nil-append)
          (ap (λ d. String.◌∷◌ d s) (Char-path c _ ((nat_beq_iff _ _).0 e)))),
  )
  | inr e ↦ elim (before_dot-parts s) [
    | inl same ↦ inl (rw e (ap (String.◌∷◌ c) same))
    | inr (rest, same) ↦ inr (rest, rw (e, cons-append) (ap (String.◌∷◌ c) same))
  ]
]

before_dot_self : (p : String) → NoDot p → before_dot p ≡ p
unfolding before_dot
before_dot_self String.[] h = refl
before_dot_self (String.◌∷◌ c s) (h, k) = ground (arith, before_dot_self s k)

before_dot-append :
    (p rest : String) → NoDot p → before_dot (String.◌++◌ p (String.◌++◌ "." rest)) ≡ p
unfolding before_dot
before_dot-append String.[] rest h = rw (nil-append, cons-append)
before_dot-append (String.◌∷◌ c s) rest (h, k) =
    rw cons-append (ground (arith, before_dot-append s rest k))

BeginsWith-iff :
    (key : String) (c : RecordCategory) → BeginsWith key c ↔ (before_dot key ≡ category_name c)
BeginsWith-iff key c = (to, from)
  where
    to : BeginsWith key c → before_dot key ≡ category_name c
    to (inl same) = rw same (before_dot_self (category_name c) (name_NoDot c))
    to (inr (rest, same)) = rw same (before_dot-append (category_name c) rest (name_NoDot c))

    from : before_dot key ≡ category_name c → BeginsWith key c
    from e = elim (before_dot-parts key) [
      | inl same ↦ inl (same ∙ e)
      | inr (rest, same) ↦ inr (rest, same ∙ ap (λ p. String.◌++◌ p (String.◌++◌ "." rest)) e)
    ]

category_of_name-name : (c : RecordCategory) → category_of_name (category_name c) ≡ some c
unfolding category_of_name
category_of_name-name contacts = refl
category_of_name-name _ = refl

name-category_of_name :
    (name : String) (c : RecordCategory) → category_of_name name ≡ some c → name ≡ category_name c
unfolding category_of_name
name-category_of_name name c h =
    sym ((eq_iff _ _).0 (find_sound (λ d. category_name d == name) all_record_categories h))

truthy-name : (c : RecordCategory) → truthy (category_name c) ≡ true
truthy-name contacts = refl
truthy-name _ = refl

module _ (key : String) (c : RecordCategory) where
  ok-category :
      record_category_from_field_key key ≡ ok c → category_of_name (before_dot key) ≡ some c
  unfolding record_category_from_field_key
  ok-category h = ground arith

  category-ok :
      truthy (before_dot key) ≡ true
      → category_of_name (before_dot key) ≡ some c
      → record_category_from_field_key key ≡ ok c
  unfolding record_category_from_field_key
  category-ok t e = ground arith

-- The function returns a category exactly for the keys that are its text, alone or followed by a dot
-- and anything; for every other key it throws.
pub record_category_from_field_key_iff :
    (key : String) (c : RecordCategory)
    → (record_category_from_field_key key ≡ ok c) ↔ BeginsWith key c
record_category_from_field_key_iff key c = (to, from)
  where
    to : record_category_from_field_key key ≡ ok c → BeginsWith key c
    to h = (BeginsWith-iff key c).1 (name-category_of_name (before_dot key) c (ok-category key c h))

    from : BeginsWith key c → record_category_from_field_key key ≡ ok c
    from b =
        category-ok key c (rw ((BeginsWith-iff key c).0 b) (truthy-name c))
          (rw ((BeginsWith-iff key c).0 b) (category_of_name-name c))
