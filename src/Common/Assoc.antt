-- ===== src/Common/Assoc.antt =====
-- `Map<string, T>` as a list of entries, of which the first of a key counts.
pub mod Count
use aideep_backend.Common.{
  String, ◌≡◌, refl, false, Option, none, some, List, [], ◌∷◌, ◌==◌, if◌then◌else◌, eq_refl, eq_iff,
  arith, eq-cases,
}

module _ {A : Type 0} where
  -- `map.get(key)`
  abbrev pub lookup : String → List (String × A) → Option A
  lookup key [] = none
  lookup key ((k, a) ∷ entries) = let rest = lookup key entries in if k == key then some a else rest

  -- `map.set(key, a)`
  abbrev pub put : String → A → List (String × A) → List (String × A)
  put key a [] = (key, a) ∷ []
  put key a ((k, b) ∷ entries) =
      let rest = put key a entries in if k == key then (k, a) ∷ entries else (k, b) ∷ rest

  -- `map.delete(key)`
  abbrev pub remove : String → List (String × A) → List (String × A)
  remove key [] = []
  remove key ((k, b) ∷ entries) =
      let rest = remove key entries in if k == key then rest else (k, b) ∷ rest

  pub lookup-put_same :
      (key : String) (a : A) (entries : List (String × A)) → lookup key (put key a entries) ≡ some a
  lookup-put_same key a [] = rw (eq_refl key, lookup) refl
  lookup-put_same key a ((k, b) ∷ entries) =
      ground (arith, eq_refl key, lookup-put_same key a entries)

  pub lookup-put_other :
      (key other : String) (a : A) (entries : List (String × A))
      → (key == other) ≡ false
      → lookup other (put key a entries) ≡ lookup other entries
  lookup-put_other key other a [] differ = ground (arith, differ)
  lookup-put_other key other a ((k, b) ∷ entries) differ = ground (
    arith,
    differ,
    eq_iff k key,
    eq_iff k other,
    eq_iff key other,
    lookup-put_other key other a entries differ,
  )

  pub lookup-remove_same :
      (key : String) (entries : List (String × A)) → lookup key (remove key entries) ≡ none
  lookup-remove_same key [] = refl
  lookup-remove_same key ((k, b) ∷ entries) = ground (arith, lookup-remove_same key entries)

  pub lookup-remove_other :
      (key other : String) (entries : List (String × A))
      → (key == other) ≡ false
      → lookup other (remove key entries) ≡ lookup other entries
  lookup-remove_other key other [] differ = refl
  lookup-remove_other key other ((k, b) ∷ entries) differ = ground (
    arith,
    differ,
    eq_iff k key,
    eq_iff k other,
    eq_iff key other,
    lookup-remove_other key other entries differ,
  )

  pub lookup-put :
      (key other : String) (a : A) (entries : List (String × A))
      → lookup other (put key a entries) ≡ (if key == other then some a else lookup other entries)
  lookup-put key other a entries = ground (
    arith,
    eq-cases key other,
    lookup-put_same key a entries,
    lookup-put_other key other a entries,
  )

  pub lookup-remove :
      (key other : String) (entries : List (String × A))
      → lookup other (remove key entries) ≡ (if key == other then none else lookup other entries)
  lookup-remove key other entries = ground (
    arith,
    eq-cases key other,
    lookup-remove_same key entries,
    lookup-remove_other key other entries,
  )
