-- ===== src/Worker/Handler/Names.antt =====
-- Lists of names of steps: appending, and membership in a list without repetitions.
use legacy_vault.Base.{
  ◌≡◌, refl, ap, String, true, false, ◌||◌, List, [], ◌∷◌, ◌++◌, arith, contains, distinct, All,
  eq_self, ◌==◌, string_eq,
}

contains-middle-lem :
    (xs ys : List String) (a b : String)
    → contains (xs ++ a ∷ ys) b ≡ (contains xs b || (a == b || contains ys b))
contains-middle-lem [] ys a b = refl
contains-middle-lem (x ∷ xs) ys a b = ground (arith, contains-middle-lem xs ys a b)

pub contains-middle :
    (xs ys : List String) (a : String) → distinct (xs ++ a ∷ ys) ≡ true → contains xs a ≡ false
contains-middle [] ys a h = refl
contains-middle (x ∷ xs) ys a h = ground (
  arith,
  contains-middle-lem xs ys a x,
  contains-middle xs ys a (ground arith),
  string_eq.beq_iff a x,
  string_eq.beq_iff x a,
)

pub append-nil : (xs : List String) → xs ++ [] ≡ xs
append-nil [] = refl
append-nil (x ∷ xs) = ap (x ∷◌) (append-nil xs)

pub snoc-append : (xs ys : List String) (a : String) → (xs ++ a ∷ []) ++ ys ≡ xs ++ a ∷ ys
snoc-append [] ys a = refl
snoc-append (x ∷ xs) ys a = ap (x ∷◌) (snoc-append xs ys a)

pub All-contained :
    (ys xs : List String)
    → ((n : String) → contains xs n ≡ true → contains ys n ≡ true)
    → All (λ n. contains ys n ≡ true) xs
All-contained ys [] h = tt
All-contained ys (x ∷ xs) h =
    (h x (ground (arith, eq_self x)), All-contained ys xs (λ n k. h n (ground arith)))

pub append_assoc : (xs ys zs : List String) → (xs ++ ys) ++ zs ≡ xs ++ (ys ++ zs)
append_assoc [] ys zs = refl
append_assoc (x ∷ xs) ys zs = ap (x ∷◌) (append_assoc xs ys zs)
