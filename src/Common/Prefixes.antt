-- ===== src/Common/Prefixes.antt =====
-- Texts built from a fixed prefix: `${prefix}${rest}`.
use Prim.Native.Nat.{compare, Ordering}
use Prim.Native.Char.{code}
use Prim.Native.String.{String, ◌++◌}
use mathlib.Core.Path.{◌≡◌, sym, ap, ◌∙◌}
use mathlib.Core.Bool.{Bool, true, false}
use native.Mathlib.Omega.{arith}
use text.Mathlib.TextLemmas.{cons-append, head-eq_of_cons-eq, tail-eq_of_cons-eq}

-- Two prefixes differ at a place that both have, so no text begins with both.
abbrev pub differ : String → String → Bool
differ (String.◌∷◌ c p) (String.◌∷◌ d q) =
    let rest = differ p q in elim (compare (code c) (code d)) [ Ordering.eq ↦ rest | _ ↦ true ]
differ _ _ = false

pub append-ne-append : (p q x y : String) → differ p q ≡ true → p ++ x ≡ q ++ y → ⊥
append-ne-append (String.◌∷◌ c p) (String.◌∷◌ d q) x y h e =
    let e' = sym (cons-append c p x) ∙ e ∙ cons-append d q y in
    ground (
      arith,
      ap code (head-eq_of_cons-eq e'),
      λ (r : differ p q ≡ true). append-ne-append p q x y r (tail-eq_of_cons-eq e'),
    )
append-ne-append _ _ x y h e = cc
