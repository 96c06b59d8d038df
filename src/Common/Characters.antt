-- ===== src/Common/Characters.antt =====
-- A text and the list of its characters.
use Prim.Native.Char.{Char}
use Prim.Native.String.{String, [], ◌∷◌}
use mathlib.Core.Path.{◌≡◌, refl, ap}
use mathlib.Core.List.{List, [] as []ᴸ, ◌∷◌ as ◌∷ᴸ◌}

abbrev pub chars : String → List Char
chars [] = []ᴸ
chars (c ∷ s) = c ∷ᴸ chars s

abbrev pub text_of : List Char → String
text_of []ᴸ = []
text_of (c ∷ᴸ l) = c ∷ text_of l

pub chars-text_of : (l : List Char) → chars (text_of l) ≡ l
chars-text_of []ᴸ = refl
chars-text_of (c ∷ᴸ l) = ap (λ m. c ∷ᴸ m) (chars-text_of l)

pub text_of-chars : (s : String) → text_of (chars s) ≡ s
text_of-chars [] = refl
text_of-chars (c ∷ s) = ap (λ t. c ∷ t) (text_of-chars s)
