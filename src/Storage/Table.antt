-- ===== src/Storage/Table.antt =====
-- A table is the list of its rows, newest first, with a primary key. A select by primary key finds
-- at most one row, an update replaces it and a delete takes it out.
use personal_finance_public.Base.{
  String, ◌≡◌, refl, Option, none, some, is_some, List, [], ◌∷◌, arith, ◌==◌, ==→≡, ==_refl,
  if◌then◌else◌,
}

pub record Keyed (R : Type 0) : Type 0 where
  pub key : R → String

module _ {R : Type 0} ⦃k : Keyed R⦄ where
  unfoldable pub lookup : String → List R → Option R
  lookup id [] = none
  lookup id (r ∷ rows) = if k.key r == id then some r else lookup id rows

  unfoldable pub update : R → List R → List R
  update r [] = []
  update r (x ∷ rows) = (if k.key x == k.key r then r else x) ∷ update r rows

  unfoldable pub remove : String → List R → List R
  remove id [] = []
  remove id (x ∷ rows) = let rest = remove id rows in if k.key x == id then rest else x ∷ rest

  pub lookup-cons :
      (id : String) (r : R) (rows : List R)
      → lookup id (r ∷ rows) ≡ (if k.key r == id then some r else lookup id rows)
  unfolding lookup
  lookup-cons id r rows = refl

  pub lookup-update :
      (id : String) (r : R) (rows : List R)
      → lookup id (update r rows) ≡ (
          if k.key r == id
          then (if is_some (lookup id rows) then some r else none)
          else lookup id rows)
  unfolding lookup update
  lookup-update id r [] = ground arith
  lookup-update id r (x ∷ rows) = ground (
    arith,
    lookup-update id r rows,
    ==→≡ (k.key x) (k.key r),
    ==→≡ (k.key x) id,
    ==→≡ (k.key r) id,
    ==_refl id,
    ==_refl (k.key r),
  )

  pub lookup-remove :
      (id j : String) (rows : List R)
      → lookup j (remove id rows) ≡ (if id == j then none else lookup j rows)
  unfolding lookup remove
  lookup-remove id j [] = ground arith
  lookup-remove id j (x ∷ rows) = ground (
    arith,
    lookup-remove id j rows,
    ==→≡ (k.key x) id,
    ==→≡ (k.key x) j,
    ==→≡ id j,
    ==_refl id,
    ==_refl j,
  )

  -- The row that a key finds has that key.
  pub key-lookup : (id : String) (rows : List R) {r : R} → lookup id rows ≡ some r → k.key r ≡ id
  unfolding lookup
  key-lookup id [] h = cc
  key-lookup id (x ∷ rows) {r} h = ground (arith, key-lookup id rows {r = r}, ==→≡ (k.key x) id)
