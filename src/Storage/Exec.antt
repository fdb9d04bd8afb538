-- ===== src/Storage/Exec.antt =====
-- Methods that change a state and may raise. What was written before a raise stays written: only
-- the unit of work takes it back.
use personal_finance_public.Base.{⊤, Bool, true, false, Option, none, some, Error, Result, ok, err}

abbrev pub Exec : Type 0 → Type 0 → Type 0
Exec S A = S → Result A × S

module _ {S A : Type 0} where
  abbrev pub pure : A → Exec S A
  pure a s = (ok a, s)

  abbrev pub raise : Error → Exec S A
  raise e s = (err e, s)

  abbrev pub lift : Result A → Exec S A
  lift r s = (r, s)

  abbrev pub gets : (S → A) → Exec S A
  gets f s = (ok (f s), s)

abbrev pub resume : {S A B : Type 0} → (A → Exec S B) → Result A × S → Result B × S
resume f (ok a, s) = f a s
resume f (err e, s) = (err e, s)

infixl 5 ◌>>=◌ ◌>>◌
unfoldable pub ◌>>=◌ : {S A B : Type 0} → Exec S A → (A → Exec S B) → Exec S B
◌>>=◌ m f s = resume f (m s)

abbrev pub ◌>>◌ : {S B : Type 0} → Exec S ⊤ → Exec S B → Exec S B
m >> k = m >>= λ _. k

abbrev pub guard : {S : Type 0} → Bool → Error → Exec S ⊤
guard true e s = (err e, s)
guard false e s = (ok tt, s)

-- `if found is None: raise error`
abbrev pub or_raise : {S A : Type 0} → Option A → Error → Exec S A
or_raise none e s = (err e, s)
or_raise (some a) e s = (ok a, s)
