-- ===== src/Base/Tests.antt =====
-- Boolean tests on numbers, texts and options, the conditional, and case splits that keep an
-- equation.
use Prim.Native.Nat.{ℕ, compare, Ordering}
use Prim.Native.String.{String}
use mathlib.Core.Path.{◌≡◌, refl}
use mathlib.Core.Logic.{◌⊎◌, inl, inr}
use mathlib.Core.Bool.{Bool, true, false}
use mathlib.Core.Option.{Option, none, some}
use Prim.Native.String.{compare as str_compare}
use text.Mathlib.Text.{◌==◌ as str_eq, is_le}
use text.Mathlib.TextEquality.{eq_iff as str_eq_iff}

-- The result of a call made for its effect.
abbrev pub ⊤ : Type 0
⊤ = Unit

abbrev pub ltb : ℕ → ℕ → Bool
ltb a b = elim (compare a b) [ Ordering.lt ↦ true | _ ↦ false ]

abbrev pub leb : ℕ → ℕ → Bool
leb a b = elim (compare a b) [ Ordering.gt ↦ false | _ ↦ true ]

abbrev pub nat_eq : ℕ → ℕ → Bool
nat_eq a b = elim (compare a b) [ Ordering.eq ↦ true | _ ↦ false ]

-- Equality of texts is shut, and is read through `==→≡` and `==_refl`.
infix 50 ◌==◌
unfoldable pub ◌==◌ : String → String → Bool
a == b = str_eq a b

pub ==→≡ : (a b : String) → (a == b) ≡ true → a ≡ b
unfolding ◌==◌
==→≡ a b h = (str_eq_iff a b).0 h

pub ==_refl : (a : String) → (a == a) ≡ true
unfolding ◌==◌
==_refl a = (str_eq_iff a a).1 refl

-- The order of texts by code points, which is SQLite's order of their UTF-8 bytes.
unfoldable pub text_le : String → String → Bool
text_le a b = is_le (str_compare a b)

-- An optional identifier against a column value, as SQL compares: NULL equals nothing.
infix 50 ◌=?◌
abbrev pub ◌=?◌ : Option String → String → Bool
none =? b = false
some a =? b = a == b

infix 1 if◌then◌else◌
abbrev pub if◌then◌else◌ {ℓ} : {A : Type ℓ} → Bool → A → A → A
if true then x else y = x
if false then x else y = y

abbrev pub is_some {ℓ} : {A : Type ℓ} → Option A → Bool
is_some none = false
is_some (some _) = true

-- Python's `a or b` on optional values that are truthy when present.
abbrev pub or_else {ℓ} : {A : Type ℓ} → Option A → A → A
or_else none b = b
or_else (some a) b = a

pub Bool-cases : (b : Bool) → (b ≡ true) ⊎ (b ≡ false)
Bool-cases true = inl refl
Bool-cases false = inr refl

pub Option-cases {ℓ} : {A : Type ℓ} (o : Option A) → (o ≡ none) ⊎ ((a : A) × (o ≡ some a))
Option-cases none = inl refl
Option-cases (some a) = inr (a, refl)
