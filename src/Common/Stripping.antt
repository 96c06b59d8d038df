-- ===== src/Common/Stripping.antt =====
-- Lists of characters from which a prefix, or the first occurrence of a pattern, is taken.
use Prim.Native.Char.{Char, code}
use mathlib.Core.Path.{◌≡◌, refl}
use mathlib.Core.List.{List, [], ◌∷◌, ◌++◌}
use mathlib.Core.Option.{Option, none, some}
use native.Mathlib.Omega.{arith}
use aideep_backend.Common.Tests.{eqb, if◌then◌else◌}

-- the rest of a text behind a prefix
abbrev pub strip : List Char → List Char → Option (List Char)
strip [] l = some l
strip (p ∷ ps) [] = none
strip (p ∷ ps) (c ∷ l) = let rest = strip ps l in if eqb (code p) (code c) then rest else none

-- `text.replace(pattern, '')`, which takes the first occurrence out
abbrev pub or_next : Option (List Char) → List Char → List Char
or_next none l = l
or_next (some rest) l = rest

abbrev pub take_out : List Char → List Char → List Char
take_out pattern [] = or_next (strip pattern []) []
take_out pattern (c ∷ l) =
    let rest = take_out pattern l in or_next (strip pattern (c ∷ l)) (c ∷ rest)

pub strip-append : (p l : List Char) → strip p (p ++ l) ≡ some l
strip-append [] l = refl
strip-append (c ∷ p) l = ground (arith, strip-append p l)
