-- ===== src/Samples/Coding.antt =====
-- Codings of values as lists of characters that can be read back with a rest behind them, and from
-- them the texts of the sample platform.
use Prim.Native.Char.{Char, code, nul}
use aideep_backend.Common.{
  ℕ, zero, suc, String, ◌≡◌, refl, ap, ◌∙◌, false, Option, none, some, List, [], ◌∷◌, length, ◌==◌,
  eq-cases, inl, inr, chars, text_of, chars-text_of, text_of-chars,
}
use aideep_backend.Infra.Codec.{Codec}

abbrev pub mark : Char
mark = "x"

pub not_empty : (c : Char) (l : List Char) → (text_of (c ∷ l) == "") ≡ false
not_empty c l = elim (eq-cases (text_of (c ∷ l)) "") [
  | inl (_, e) ↦ absurd (cc (chars-text_of (c ∷ l), chars-text_of [], ap chars e))
  | inr (f, _) ↦ f
]

-- `take` reads what `put` wrote before a rest
pub record Coding (A : Type 0) : Type 0 where
  pub put : A → List Char → List Char
  pub take : List Char → Option (A × List Char)
  pub take_put : (a : A) (rest : List Char) → take (put a rest) ≡ some (a, rest)
  pub nonempty : (a : A) (rest : List Char) → (text_of (put a rest) == "") ≡ false

abbrev change : {A B : Type 0} → (A → B) → Option (A × List Char) → Option (B × List Char)
change f none = none
change f (some (a, rest)) = some (f a, rest)

-- a coding through another type, and back
abbrev pub through :
    {A B : Type 0} (to : A → B) (back : B → A) → ((a : A) → back (to a) ≡ a) → Coding B → Coding A
through to back same B = record {
  put = λ a rest. B.put (to a) rest;
  take = λ l. change back (B.take l);
  take_put =
      λ a rest. ap (change back) (B.take_put (to a) rest) ∙ ap (λ x. some (x, rest)) (same a);
  nonempty = λ a rest. B.nonempty (to a) rest;
}

-- a mark before each character, and an end
abbrev pub pack : List Char → List Char → List Char
pack [] rest = nul ∷ rest
pack (c ∷ cs) rest = mark ∷ c ∷ pack cs rest

abbrev unpack : List Char → Option (List Char × List Char)
unpack [] = none
unpack (k ∷ []) = elim (code k) [ zero ↦ some ([], []) | suc _ ↦ none ]
unpack (k ∷ c ∷ rest) =
    let r = unpack rest in
    elim (code k) [ zero ↦ some ([], c ∷ rest) | suc _ ↦ change (λ cs. c ∷ cs) r ]

pub unpack-pack : (cs rest : List Char) → unpack (pack cs rest) ≡ some (cs, rest)
unpack-pack [] [] = refl
unpack-pack [] (c ∷ rest) = refl
unpack-pack (c ∷ cs) rest = ap (change (λ cs. c ∷ cs)) (unpack-pack cs rest)

pub pack_not_empty : (cs rest : List Char) → (text_of (pack cs rest) == "") ≡ false
pack_not_empty [] rest = not_empty nul rest
pack_not_empty (c ∷ cs) rest = not_empty mark (c ∷ pack cs rest)

abbrev pub characters : Coding (List Char)
characters = record { put = pack; take = unpack; take_put = unpack-pack; nonempty = pack_not_empty }

abbrev pub a_text : Coding String
a_text = through chars text_of text_of-chars characters

abbrev pub unary : ℕ → List Char
unary zero = []
unary (suc n) = mark ∷ unary n

pub length-unary : (n : ℕ) → length (unary n) ≡ n
length-unary zero = refl
length-unary (suc n) = ap suc (length-unary n)

abbrev pub a_number : Coding ℕ
a_number = through unary length length-unary characters

module _ {A B : Type 0} (C : Coding A) (D : Coding B) where
  abbrev second : A → Option (B × List Char) → Option ((A × B) × List Char)
  second a none = none
  second a (some (b, rest)) = some ((a, b), rest)

  abbrev both : Option (A × List Char) → Option ((A × B) × List Char)
  both none = none
  both (some (a, rest)) = second a (D.take rest)

  abbrev pub a_pair : Coding (A × B)
  a_pair = record {
    put = λ p rest. C.put p.0 (D.put p.1 rest);
    take = λ l. both (C.take l);
    take_put =
        λ p rest. ap both (C.take_put p.0 (D.put p.1 rest)) ∙ ap (second p.0) (D.take_put p.1 rest);
    nonempty = λ p rest. C.nonempty p.0 (D.put p.1 rest);
  }

module _ {A : Type 0} (C : Coding A) where
  abbrev pub put_option : Option A → List Char → List Char
  put_option none rest = nul ∷ rest
  put_option (some a) rest = mark ∷ C.put a rest

  abbrev pub take_option : List Char → Option (Option A × List Char)
  take_option [] = none
  take_option (k ∷ l) = elim (code k) [ zero ↦ some (none, l) | suc _ ↦ change some (C.take l) ]

  pub take_option-put_option :
      (o : Option A) (rest : List Char) → take_option (put_option o rest) ≡ some (o, rest)
  take_option-put_option none rest = refl
  take_option-put_option (some a) rest = ap (change some) (C.take_put a rest)

  pub option_not_empty :
      (o : Option A) (rest : List Char) → (text_of (put_option o rest) == "") ≡ false
  option_not_empty none rest = not_empty nul rest
  option_not_empty (some a) rest = not_empty mark (C.put a rest)

  abbrev pub an_option : Coding (Option A)
  an_option = record {
    put = put_option;
    take = take_option;
    take_put = take_option-put_option;
    nonempty = option_not_empty;
  }

  abbrev pub put_all : List A → List Char → List Char
  put_all [] rest = rest
  put_all (x ∷ xs) rest = C.put x (put_all xs rest)

  abbrev grow : A → Option (List A × List Char) → Option (List A × List Char)
  grow a none = none
  grow a (some (xs, rest)) = some (a ∷ xs, rest)

  abbrev pub take_all : ℕ → List Char → Option (List A × List Char)
  take_all zero l = some ([], l)
  take_all (suc n) l = elim (C.take l) [ none ↦ none | some (a, rest) ↦ grow a (take_all n rest) ]

  pub take_all-put_all :
      (xs : List A) (rest : List Char) → take_all (length xs) (put_all xs rest) ≡ some (xs, rest)
  take_all-put_all [] rest = refl
  take_all-put_all (x ∷ xs) rest =
      rw (C.take_put x (put_all xs rest), take_all-put_all xs rest, take_all) refl

  abbrev pub counted : Option (ℕ × List Char) → Option (List A × List Char)
  counted none = none
  counted (some (n, l)) = take_all n l

  -- the length stands before the elements
  abbrev pub a_list : Coding (List A)
  a_list = record {
    put = λ xs rest. a_number.put (length xs) (put_all xs rest);
    take = λ l. counted (a_number.take l);
    take_put = λ xs rest.
        ap counted (a_number.take_put (length xs) (put_all xs rest)) ∙ take_all-put_all xs rest;
    nonempty = λ xs rest. a_number.nonempty (length xs) (put_all xs rest);
  }

  abbrev pub value : Option (A × List Char) → Option A
  value none = none
  value (some (a, rest)) = some a

  abbrev pub codec : Codec A
  codec = record {
    encode = λ a. text_of (C.put a []);
    decode = λ s. value (C.take (chars s));
    decode_encode =
        λ a. ap (λ l. value (C.take l)) (chars-text_of (C.put a [])) ∙ ap value (C.take_put a []);
    encode_nonempty = λ a. C.nonempty a [];
  }
