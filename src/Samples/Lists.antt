-- ===== src/Samples/Lists.antt =====
-- The queries of a table that is a list of rows.
use aideep_backend.Common.{
  ◌≡◌, ◌↔◌, refl, inl, inr, ⊎_elim, sym, subst, Bool, true, false, Option, none, some, List, [],
  ◌∷◌, Memᴰ, arith, any, keep, Memᴰ-cons, Memᴰ-nil, Bool-cases, if◌then◌else◌,
}

module _ {Row : Type 0} (p : Row → Bool) where
  abbrev pub find : List Row → Option Row
  find [] = none
  find (r ∷ rows) = let rest = find rows in if p r then some r else rest

  pub find-none : (rows : List Row) → find rows ≡ none → any p rows ≡ false
  find-none [] h = refl
  find-none (r ∷ rows) h = ground (arith, find-none rows)

  pub find-some : (rows : List Row) (r : Row) → find rows ≡ some r → Memᴰ r rows × (p r ≡ true)
  find-some [] r h = absurd (cc h)
  find-some (q ∷ rows) r h = elim (Bool-cases (p q)) [
    | inl t ↦
        let e : q ≡ r = cc (rw (t, find) at h) in (Memᴰ.head (sym e), subst (λ x. p x ≡ true) e t)
    | inr f ↦ let (m, t) = find-some rows r (rw (f, find) at h) in (Memᴰ.tail m, t)
  ]

  pub mem-keep_iff :
      (rows : List Row) (r : Row) → Memᴰ r (keep p rows) ↔ (Memᴰ r rows × (p r ≡ true))
  mem-keep_iff [] r = (λ m. absurd (Memᴰ-nil r m), λ h. absurd (Memᴰ-nil r h.0))
  mem-keep_iff (q ∷ rows) r = elim (Bool-cases (p q)) [
    | inl t ↦
        rw (t, keep)
          (
            λ m.
                ⊎_elim (λ e. (Memᴰ.head e, subst (λ x. p x ≡ true) (sym e) t))
                  (λ n. let (i, u) = (mem-keep_iff rows r).0 n in (Memᴰ.tail i, u))
                  ((Memᴰ-cons r q (keep p rows)).0 m),
            λ (m, u).
                ⊎_elim Memᴰ.head (λ n. Memᴰ.tail ((mem-keep_iff rows r).1 (n, u)))
                  ((Memᴰ-cons r q rows).0 m),
          )
    | inr f ↦
        rw (f, keep)
          (
            λ m. let (i, u) = (mem-keep_iff rows r).0 m in (Memᴰ.tail i, u),
            λ (m, u).
                ⊎_elim (λ e. absurd (cc (f, u, e))) (λ n. (mem-keep_iff rows r).1 (n, u))
                  ((Memᴰ-cons r q rows).0 m),
          )
  ]
