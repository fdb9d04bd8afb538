-- ===== src/Base/Text/Strip.antt =====
-- `str.strip` is idempotent and never lengthens a text.
use Prim.Native.Nat.{ℕ, zero, suc, ◌≤◌}
use Prim.Native.String.{String, [], ◌∷◌}
use mathlib.Core.Path.{◌≡◌, refl, ap}
use mathlib.Core.Bool.{◌&&◌}
use mathlib.Core.Logic.{inl, inr}
use native.Mathlib.Omega.{arith}
use personal_finance_public.Base.Tests.{Bool-cases}
use personal_finance_public.Base.Text.{is_space, length, is_empty, take, lstrip, rstrip, strip}

pub length-lstrip-le : (s : String) → length (lstrip s) ≤ length s
unfolding lstrip
length-lstrip-le [] = omega arith
length-lstrip-le (c ∷ s) = elim (Bool-cases (is_space c)) [
  | inl space ↦ rw space (omega (arith, length-lstrip-le s))
  | inr other ↦ rw other (omega arith)
]

pub length-rstrip-le : (s : String) → length (rstrip s) ≤ length s
unfolding rstrip
length-rstrip-le [] = omega arith
length-rstrip-le (c ∷ s) = elim (Bool-cases (is_space c && is_empty (rstrip s))) [
  | inl blank ↦ rw blank (omega arith)
  | inr kept ↦ rw kept (omega (arith, length-rstrip-le s))
]

pub length-strip-le : (s : String) → length (strip s) ≤ length s
unfolding strip
length-strip-le s = omega (arith, length-rstrip-le (lstrip s), length-lstrip-le s)

pub lstrip-lstrip : (s : String) → lstrip (lstrip s) ≡ lstrip s
unfolding lstrip
lstrip-lstrip [] = refl
lstrip-lstrip (c ∷ s) = elim (Bool-cases (is_space c)) [
  | inl space ↦ rw space (lstrip-lstrip s)
  | inr other ↦ rw (other, other)
]

pub rstrip-rstrip : (s : String) → rstrip (rstrip s) ≡ rstrip s
unfolding rstrip
rstrip-rstrip [] = refl
rstrip-rstrip (c ∷ s) = elim (Bool-cases (is_space c && is_empty (rstrip s))) [
  | inl blank ↦ rw blank
  | inr kept ↦ rw kept (rw (rstrip-rstrip s) (rw kept))
]

-- Taking spaces off the right end leaves a text that has none on the left.
lstrip-rstrip : (s : String) → lstrip s ≡ s → lstrip (rstrip s) ≡ rstrip s
unfolding lstrip rstrip
lstrip-rstrip [] h = refl
lstrip-rstrip (c ∷ s) h = elim (Bool-cases (is_space c)) [
  | inl space ↦
      let shorter = length-lstrip-le s in
      let same = ap length (rw space at h) in absurd (omega arith)
  | inr other ↦ rw other (rw other)
]

pub strip-strip : (s : String) → strip (strip s) ≡ strip s
unfolding strip
strip-strip s = rw (lstrip-rstrip (lstrip s) (lstrip-lstrip s)) (rstrip-rstrip (lstrip s))

pub length-take-le : (n : ℕ) (s : String) → length (take n s) ≤ n
unfolding take
length-take-le zero s = omega arith
length-take-le (suc n) [] = omega arith
length-take-le (suc n) (c ∷ s) = omega (arith, length-take-le n s)
