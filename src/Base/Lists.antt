-- ===== src/Base/Lists.antt =====
-- Lists measured by native numbers and searched by Boolean tests.
use Prim.Native.Nat.{ℕ, zero, suc, ◌+◌, ◌≤◌, min}
use mathlib.Core.Path.{◌≡◌, refl}
use mathlib.Core.Logic.{◌↔◌, inl, inr}
use mathlib.Core.Bool.{Bool, true, false, ◌&&◌, ◌||◌, not}
use mathlib.Core.Option.{Option, none, some}
use mathlib.Core.List.{List, [], ◌∷◌, ◌++◌}
use native.Mathlib.Omega.{arith}
use legacy_vault.Base.Tests.{if◌then◌else◌, Bool-cases}
use legacy_vault.Base.Equality.{Eq, ◌==◌}

module _ {ℓ} {A : Type ℓ} where
  abbrev pub length : List A → ℕ
  length [] = 0
  length (x ∷ xs) = suc (length xs)

  abbrev pub is_nil : List A → Bool
  is_nil [] = true
  is_nil (x ∷ xs) = false

  abbrev pub any : (A → Bool) → List A → Bool
  any p [] = false
  any p (x ∷ xs) = p x || any p xs

  abbrev pub all : (A → Bool) → List A → Bool
  all p [] = true
  all p (x ∷ xs) = p x && all p xs

  abbrev pub filter : (A → Bool) → List A → List A
  filter p [] = []
  filter p (x ∷ xs) = let rest = filter p xs in if p x then x ∷ rest else rest

  abbrev pub find : (A → Bool) → List A → Option A
  find p [] = none
  find p (x ∷ xs) = if p x then some x else find p xs

  abbrev pub take : ℕ → List A → List A
  take zero xs = []
  take (suc n) [] = []
  take (suc n) (x ∷ xs) = x ∷ take n xs

  abbrev pub drop : ℕ → List A → List A
  drop zero xs = xs
  drop (suc n) [] = []
  drop (suc n) (x ∷ xs) = drop n xs

  pub length-append : (xs ys : List A) → length (xs ++ ys) ≡ length xs + length ys
  length-append [] ys = omega arith
  length-append (x ∷ xs) ys = omega (arith, length-append xs ys)

  pub length-take : (n : ℕ) (xs : List A) → length (take n xs) ≡ min n (length xs)
  length-take zero xs = omega arith
  length-take (suc n) [] = omega arith
  length-take (suc n) (x ∷ xs) = omega (arith, length-take n xs)

  pub length-filter-le : (p : A → Bool) (xs : List A) → length (filter p xs) ≤ length xs
  length-filter-le p [] = omega arith
  length-filter-le p (x ∷ xs) = ground (arith, length-filter-le p xs)

-- What holds of every item, and of some item with its place kept.
module _ {ℓ κ} {A : Type ℓ} (P : A → Type κ) where
  abbrev pub All : List A → Type κ
  All [] = Unit
  All (x ∷ xs) = P x × All xs

  pub data Any : List A → Type (ℓ ⊔ κ) where
    here : {x : A} {xs : List A} → P x → Any (x ∷ xs)
    there : {x : A} {xs : List A} → Any xs → Any (x ∷ xs)

module _ {ℓ} {A : Type ℓ} (p : A → Bool) where
  pub any→Any : (xs : List A) → any p xs ≡ true → Any (λ x. p x ≡ true) xs
  any→Any (x ∷ xs) h = elim (Bool-cases (p x)) [
    | inl e ↦ here e
    | inr e ↦ there (any→Any xs (ground arith))
  ]
  any→Any [] h = cc

  pub Any→any : {xs : List A} → Any (λ x. p x ≡ true) xs → any p xs ≡ true
  Any→any (here e) = ground arith
  Any→any (there t) = ground (arith, Any→any t)

  pub find_sound : (xs : List A) {a : A} → find p xs ≡ some a → p a ≡ true
  find_sound [] h = cc
  find_sound (x ∷ xs) h = elim (Bool-cases (p x)) [
    | inl e ↦ ground arith
    | inr e ↦ find_sound xs (ground arith)
  ]

-- A test that decides a predicate, of some item.
pub any_iff {ℓ κ} :
    {A : Type ℓ} (p : A → Bool) (P : A → Type κ)
    → ((x : A) → (p x ≡ true) ↔ P x)
    → (xs : List A) → (any p xs ≡ true) ↔ Any P xs
any_iff p P decides xs = ((λ h. to xs (any→Any p xs h)), (λ h. Any→any p (back xs h)))
  where
    to : (xs : List _) → Any (λ x. p x ≡ true) xs → Any P xs
    to (x ∷ xs) (here h) = here ((decides x).0 h)
    to (x ∷ xs) (there t) = there (to xs t)
    to [] h = elim h [ ]

    back : (xs : List _) → Any P xs → Any (λ x. p x ≡ true) xs
    back (x ∷ xs) (here h) = here ((decides x).1 h)
    back (x ∷ xs) (there t) = there (back xs t)
    back [] h = elim h [ ]

module _ {ℓ} {A : Type ℓ} ⦃e : Eq A⦄ where
  abbrev pub contains : List A → A → Bool
  contains xs a = any (λ x. x == a) xs

  -- No item stands twice.
  abbrev pub distinct : List A → Bool
  distinct [] = true
  distinct (x ∷ xs) = not (contains xs x) && distinct xs

module _ {ℓ} {A : Type ℓ} ⦃e : Eq A⦄ where
  pub contains-append :
      (xs : List A) (a b : A) → contains (xs ++ a ∷ []) b ≡ (contains xs b || (a == b))
  contains-append [] a b = ground arith
  contains-append (x ∷ xs) a b = ground (arith, contains-append xs a b)

  pub distinct-append :
      (xs : List A) (a : A)
      → distinct xs ≡ true
      → contains xs a ≡ false
      → distinct (xs ++ a ∷ []) ≡ true
  distinct-append [] a h k = refl
  distinct-append (x ∷ xs) a h k =
      ground (arith, distinct-append xs a, contains-append xs a x, e.beq_iff a x, e.beq_iff x a)

  -- Two lists are equal item by item.
  unfoldable pub same_items : List A → List A → Bool
  same_items [] [] = true
  same_items [] (_ ∷ _) = false
  same_items (_ ∷ _) [] = false
  same_items (x ∷ xs) (y ∷ ys) = x == y && same_items xs ys

  pub same_items_iff : (xs ys : List A) → (same_items xs ys ≡ true) ↔ (xs ≡ ys)
  unfolding same_items
  same_items_iff [] [] = ground arith
  same_items_iff [] (y ∷ ys) = ground arith
  same_items_iff (x ∷ xs) [] = ground arith
  same_items_iff (x ∷ xs) (y ∷ ys) = ground (arith, same_items_iff xs ys, e.beq_iff x y)
