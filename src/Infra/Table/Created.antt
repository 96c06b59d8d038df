-- ===== src/Infra/Table/Created.antt =====
-- A query that matched no row finds the row that is then created, if that matches.
use aideep_backend.Common.{
  ◌≡◌, refl, sym, ap, subst, ◌∙◌, Bool, true, none, some, [], ◌∷◌, any, any_of_found, inl, inr,
  ⊎_elim, Memᴰ, Memᴰ-append, Memᴰ-cons, Memᴰ-nil, Option-cases,
}
use aideep_backend.Infra.Table.{Table}

module _ {Input Row : Type 0} {Holds : Input → Row → Type 0} (T : Table Input Row Holds)
    (s : T.Store) (i : Input) (p : Row → Bool) where
  abbrev created : Row
  created = (T.create s i).0

  abbrev after : T.Store
  after = (T.create s i).1

  -- the new row is the only one that matches
  only_created :
      (r : Row) → T.find_first s p ≡ none → Memᴰ r (T.rows after) → p r ≡ true → r ≡ created
  only_created r new m t =
      ⊎_elim (λ old. absurd (cc (T.find_first_none s p new, any_of_found p r (T.rows s) old t)))
        (λ last. ⊎_elim (λ e. e) (λ n. absurd (Memᴰ-nil r n)) ((Memᴰ-cons r created []).0 last))
        ((Memᴰ-append r (T.rows s) (created ∷ [])).0 (subst (Memᴰ r) (T.create_rows s i) m))

  pub find_first-created :
      T.find_first s p ≡ none → p created ≡ true → T.find_first after p ≡ some created
  find_first-created new t = elim (Option-cases (T.find_first after p)) [
    | inl missing ↦
        let there : any p (T.rows after) ≡ true =
          any_of_found p created _
            (subst (Memᴰ created) (sym (T.create_rows s i))
              ((Memᴰ-append created (T.rows s) (created ∷ [])).1 (inr (Memᴰ.head refl))))
            t in
        absurd (cc (there, T.find_first_none after p missing))
    | inr (r, e) ↦
        let (m, u) = T.find_first_some after p r e in e ∙ ap some (only_created r new m u)
  ]
