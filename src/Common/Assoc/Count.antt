-- ===== src/Common/Assoc/Count.antt =====
-- How many values of a map pass a test.
use aideep_backend.Common.{
  ℕ, ◌+◌, String, ◌≡◌, refl, Bool, Option, none, some, List, [], ◌∷◌, if◌then◌else◌, arith,
  eq-cases,
}
use aideep_backend.Common.Assoc.{lookup, put, remove, lookup-put, lookup-remove}

module _ {A : Type 0} where
  -- no key has two entries
  abbrev pub IsUnique : List (String × A) → Type 0
  IsUnique [] = Unit
  IsUnique ((key, a) ∷ entries) = (lookup key entries ≡ none) × IsUnique entries

  pub put-IsUnique :
      (key : String) (a : A) (entries : List (String × A))
      → IsUnique entries
      → IsUnique (put key a entries)
  put-IsUnique key a [] unique = (refl, tt)
  put-IsUnique key a ((k, b) ∷ entries) unique = ground (
    arith,
    unique,
    eq-cases k key,
    eq-cases key k,
    put-IsUnique key a entries unique.1,
    lookup-put key k a entries,
  )

  pub remove-IsUnique :
      (key : String) (entries : List (String × A))
      → IsUnique entries
      → IsUnique (remove key entries)
  remove-IsUnique key [] unique = tt
  remove-IsUnique key ((k, b) ∷ entries) unique = ground (
    arith,
    unique,
    eq-cases k key,
    eq-cases key k,
    remove-IsUnique key entries unique.1,
    lookup-remove key k entries,
  )

  abbrev pub one : (A → Bool) → A → ℕ
  one p a = if p a then 1 else 0

  abbrev pub one_of : (A → Bool) → Option A → ℕ
  one_of p none = 0
  one_of p (some a) = one p a

  abbrev pub count : (A → Bool) → List (String × A) → ℕ
  count p [] = 0
  count p ((k, a) ∷ entries) = one p a + count p entries

  pub count-put :
      (p : A → Bool) (key : String) (a : A) (entries : List (String × A))
      → count p (put key a entries) + one_of p (lookup key entries) ≡ count p entries + one p a
  count-put p key a [] = ground arith
  count-put p key a ((k, b) ∷ entries) = ground (arith, eq-cases k key, count-put p key a entries)

  count-remove_missing :
      (p : A → Bool) (key : String) (entries : List (String × A))
      → lookup key entries ≡ none
      → count p (remove key entries) ≡ count p entries
  count-remove_missing p key [] e = refl
  count-remove_missing p key ((k, b) ∷ entries) e = ground (
    arith,
    e,
    eq-cases k key,
    λ (q : lookup key entries ≡ none). count-remove_missing p key entries q,
  )

  pub count-remove :
      (p : A → Bool) (key : String) (entries : List (String × A))
      → IsUnique entries
      → count p (remove key entries) + one_of p (lookup key entries) ≡ count p entries
  count-remove p key [] unique = refl
  count-remove p key ((k, b) ∷ entries) unique = ground (
    arith,
    unique,
    eq-cases k key,
    count-remove p key entries unique.1,
    count-remove_missing p key entries,
  )
