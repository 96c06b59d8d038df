-- ===== src/Common/Keyed.antt =====
-- Lists whose elements have different keys, as the rows of a table have by their primary key.
use Prim.Native.String.{String}
use mathlib.Core.Path.{◌≡◌, refl, sym, ap, ◌∙◌}
use mathlib.Core.Logic.{◌≢◌, inl, inr, ⊎_elim}
use mathlib.Core.Bool.{Bool}
use mathlib.Core.List.{List, [], ◌∷◌, map, Memᴰ}
use native.Mathlib.Omega.{arith}
use aideep_backend.Common.Lists.{any, keep, Memᴰ-cons, Memᴰ-nil}
use aideep_backend.Common.Tests.{Bool-cases}

module _ {ℓ} {A : Type ℓ} where
  abbrev pub IsKeyed : (A → String) → List A → Type ℓ
  IsKeyed key [] = Unit
  IsKeyed key (x ∷ xs) = ((y : A) → Memᴰ y xs → key x ≢ key y) × IsKeyed key xs

  pub IsKeyed-same :
      (key : A → String) (xs : List A) (a b : A)
      → IsKeyed key xs
      → Memᴰ a xs
      → Memᴰ b xs
      → key a ≡ key b
      → a ≡ b
  IsKeyed-same key [] a b keyed m n e = absurd (Memᴰ-nil a m)
  IsKeyed-same key (x ∷ xs) a b (new, keyed) m n e =
      ⊎_elim
        (λ first.
          ⊎_elim (λ second. first ∙ sym second) (λ later. absurd (new b later (cc (first, e))))
            ((Memᴰ-cons b x xs).0 n))
        (λ rest.
          ⊎_elim (λ second. absurd (new a rest (cc (second, e))))
            (λ later. IsKeyed-same key xs a b keyed rest later e) ((Memᴰ-cons b x xs).0 n))
        ((Memᴰ-cons a x xs).0 m)

  pub map-mem :
      (f : A → A) (xs : List A) (b : A) → Memᴰ b (map f xs) → (a : A) × Memᴰ a xs × (b ≡ f a)
  map-mem f [] b m = absurd (Memᴰ-nil b m)
  map-mem f (x ∷ xs) b m =
      ⊎_elim (λ e. (x, Memᴰ.head refl, e))
        (λ later. let (a, n, e) = map-mem f xs b later in (a, Memᴰ.tail n, e))
        ((Memᴰ-cons b (f x) (map f xs)).0 m)

  pub mem-map : (f : A → A) (xs : List A) (a : A) → Memᴰ a xs → Memᴰ (f a) (map f xs)
  mem-map f [] a m = absurd (Memᴰ-nil a m)
  mem-map f (x ∷ xs) a m =
      ⊎_elim (λ e. Memᴰ.head (ap f e)) (λ later. Memᴰ.tail (mem-map f xs a later))
        ((Memᴰ-cons a x xs).0 m)

  -- a pass that keeps the keys
  pub IsKeyed-map :
      (key : A → String) (f : A → A) (xs : List A)
      → ((a : A) → key (f a) ≡ key a)
      → IsKeyed key xs
      → IsKeyed key (map f xs)
  IsKeyed-map key f [] same keyed = tt
  IsKeyed-map key f (x ∷ xs) same (new, keyed) = (
    λ y m e. let (a, n, y_is) = map-mem f xs y m in new a n (cc (e, y_is, same x, same a)),
    IsKeyed-map key f xs same keyed,
  )

  keep-mem : (p : A → Bool) (xs : List A) (a : A) → Memᴰ a (keep p xs) → Memᴰ a xs
  keep-mem p [] a m = m
  keep-mem p (x ∷ xs) a m = elim (Bool-cases (p x)) [
    | inl t ↦
        ⊎_elim Memᴰ.head (λ later. Memᴰ.tail (keep-mem p xs a later))
          ((Memᴰ-cons a x (keep p xs)).0 (rw (t, keep) at m))
    | inr f ↦ Memᴰ.tail (keep-mem p xs a (rw (f, keep) at m))
  ]

  pub IsKeyed-keep :
      (key : A → String) (p : A → Bool) (xs : List A) → IsKeyed key xs → IsKeyed key (keep p xs)
  IsKeyed-keep key p [] keyed = tt
  IsKeyed-keep key p (x ∷ xs) (new, keyed) = elim (Bool-cases (p x)) [
    | inl t ↦ rw (t, keep) (λ y m. new y (keep-mem p xs y m), IsKeyed-keep key p xs keyed)
    | inr f ↦ rw (f, keep) (IsKeyed-keep key p xs keyed)
  ]

  -- passes that agree on the elements
  pub map-on : (f h : A → A) (xs : List A) → ((a : A) → Memᴰ a xs → f a ≡ h a) → map f xs ≡ map h xs
  map-on f h [] same = refl
  map-on f h (x ∷ xs) same =
      cc (same x (Memᴰ.head refl), map-on f h xs (λ a m. same a (Memᴰ.tail m)))

  pub any-map :
      (p : A → Bool) (f : A → A) (xs : List A)
      → ((a : A) → p (f a) ≡ p a)
      → any p (map f xs) ≡ any p xs
  any-map p f [] same = refl
  any-map p f (x ∷ xs) same = ground (arith, same x, any-map p f xs same)
