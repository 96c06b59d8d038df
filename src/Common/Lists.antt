-- ===== src/Common/Lists.antt =====
-- Lists measured by native numbers, Boolean membership of texts, and `Memᴰ` as equivalences.
use Prim.Native.Nat.{ℕ, suc, ◌+◌}
use Prim.Native.String.{String}
use mathlib.Core.Path.{◌≡◌, refl, subst}
use mathlib.Core.Logic.{◌⊎◌, ◌↔◌, ⊎_elim}
use mathlib.Core.Bool.{Bool, true, false, ◌||◌}
use mathlib.Core.List.{List, [], ◌∷◌, ◌++◌, map, Memᴰ}
use mathlib.Core.List.Memᴰ
use native.Mathlib.Omega.{arith}
use text.Mathlib.Text.{◌==◌}
use text.Mathlib.TextEquality.{eq_iff}

module _ {ℓ} {A : Type ℓ} where
  abbrev pub length : List A → ℕ
  length [] = 0
  length (x ∷ xs) = suc (length xs)

  abbrev pub any : (A → Bool) → List A → Bool
  any p [] = false
  any p (x ∷ xs) = p x || any p xs

  abbrev pub keep : (A → Bool) → List A → List A
  keep p [] = []
  keep p (x ∷ xs) = let rest = keep p xs in elim (p x) [ true ↦ x ∷ rest | false ↦ rest ]

  pub length-append : (xs ys : List A) → length (xs ++ ys) ≡ length xs + length ys
  length-append [] ys = omega arith
  length-append (x ∷ xs) ys = omega (arith, length-append xs ys)

  pub Memᴰ-cons : (a x : A) (xs : List A) → Memᴰ a (x ∷ xs) ↔ ((a ≡ x) ⊎ Memᴰ a xs)
  Memᴰ-cons a x xs = (Memᴰ.cases_cons, ⊎_elim Memᴰ.head Memᴰ.tail)

  pub Memᴰ-nil : (a : A) → ¬ Memᴰ a []
  Memᴰ-nil a m = Memᴰ.not-nil m

  pub Memᴰ-append : (a : A) (xs ys : List A) → Memᴰ a (xs ++ ys) ↔ (Memᴰ a xs ⊎ Memᴰ a ys)
  Memᴰ-append a xs ys = (Memᴰ.append_cases xs, ⊎_elim (Memᴰ.append_left ys) (Memᴰ.append_right xs))

-- `set.has(x)` of a JavaScript set of texts, and `array.includes(x)`.
abbrev pub contains : List String → String → Bool
contains [] a = false
contains (x ∷ xs) a = x == a || contains xs a

pub contains_iff : (xs : List String) (a : String) → (contains xs a ≡ true) ↔ Memᴰ a xs
contains_iff [] a = (λ h. cc, λ m. absurd (Memᴰ-nil a m))
contains_iff (x ∷ xs) a = ground (arith, eq_iff x a, Memᴰ-cons a x xs, contains_iff xs a)

-- two passes that change each element like one
pub map-map_eq {ℓ} :
    {A : Type ℓ} (f g h : A → A)
    → ((a : A) → g (f a) ≡ h a)
    → (xs : List A) → map g (map f xs) ≡ map h xs
map-map_eq f g h same [] = refl
map-map_eq f g h same (x ∷ xs) = cc (same x, map-map_eq f g h same xs)

pub map_eq {ℓ} :
    {A : Type ℓ} (f h : A → A) → ((a : A) → f a ≡ h a) → (xs : List A) → map f xs ≡ map h xs
map_eq f h same [] = refl
map_eq f h same (x ∷ xs) = cc (same x, map_eq f h same xs)

pub any_of_found {ℓ} :
    {A : Type ℓ} (p : A → Bool) (a : A) (xs : List A) → Memᴰ a xs → p a ≡ true → any p xs ≡ true
any_of_found p a [] m t = absurd (Memᴰ-nil a m)
any_of_found p a (x ∷ xs) m t =
    ⊎_elim (λ e. rw (subst (λ y. p y ≡ true) e t, any))
      (λ n. ground (arith, any_of_found p a xs n t)) ((Memᴰ-cons a x xs).0 m)
