-- ===== src/Base/Equality.antt =====
-- One equality test for numbers, texts, Booleans and the enumerations of the program.
use Prim.Native.Nat.{ℕ, compare, Ordering}
use Prim.Native.String.{String}
use mathlib.Core.Path.{◌≡◌, refl, ap}
use mathlib.Core.Logic.{◌↔◌}
use mathlib.Core.Bool.{Bool, true, false}
use mathlib.Core.Option.{Option, none, some}
use native.Mathlib.Omega.{arith}
use text.Mathlib.Text.{◌==◌ as str_eq}
use text.Mathlib.TextEquality.{eq_iff}

abbrev pub nat_beq : ℕ → ℕ → Bool
nat_beq a b = elim (compare a b) [ Ordering.eq ↦ true | _ ↦ false ]

pub nat_beq_iff : (a b : ℕ) → (nat_beq a b ≡ true) ↔ (a ≡ b)
nat_beq_iff a b = ground arith

module _ {ℓ} (A : Type ℓ) where
  pub record Eq : Type ℓ where
    pub beq : A → A → Bool
    pub beq_iff : (a b : A) → (beq a b ≡ true) ↔ (a ≡ b)

instance abbrev pub nat_eq : Eq ℕ
nat_eq = record { beq = nat_beq; beq_iff = nat_beq_iff }

infix 50 ◌==◌
abbrev pub ◌==◌ {ℓ} : {A : Type ℓ} ⦃e : Eq A⦄ → A → A → Bool
◌==◌ ⦃e⦄ = e.beq

instance abbrev pub string_eq : Eq String
string_eq = record { beq = str_eq; beq_iff = eq_iff }

pub enum_iff {ℓ} :
    {A : Type ℓ} (index : A → ℕ)
    → ((a b : A) → index a ≡ index b → a ≡ b)
    → (a b : A) → (nat_beq (index a) (index b) ≡ true) ↔ (a ≡ b)
enum_iff index injective a b = (
  (λ h. injective a b ((nat_beq_iff (index a) (index b)).0 h)),
  (λ h. (nat_beq_iff (index a) (index b)).1 (ap index h)),
)

-- Two values of an enumeration are equal if their places in it are.
abbrev pub enum_eq {ℓ} :
    {A : Type ℓ} (index : A → ℕ) → ((a b : A) → index a ≡ index b → a ≡ b) → Eq A
enum_eq index injective = record {
  beq = λ a b. nat_beq (index a) (index b);
  beq_iff = λ a b. enum_iff index injective a b;
}

pub eq_self {ℓ} : {A : Type ℓ} ⦃e : Eq A⦄ (a : A) → (a == a) ≡ true
eq_self ⦃e⦄ a = (e.beq_iff a a).1 refl

-- `value === text` for a text that may be absent.
unfoldable pub is_text : Option String → String → Bool
is_text none t = false
is_text (some s) t = s == t

pub is_text_iff : (o : Option String) (t : String) → (is_text o t ≡ true) ↔ (o ≡ some t)
unfolding is_text
is_text_iff none t = ground arith
is_text_iff (some s) t = ground (arith, eq_iff s t)
