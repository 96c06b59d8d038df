-- ===== src/Infra/Text/Digits.antt =====
-- How many digits `toString()` writes.
use Prim.Native.Nat.{◌/◌, ◌%◌}
use Prim.Native.String.append
use Prim.Native.String.{◌++◌ as ◌++ˢ◌}
use aideep_backend.Common.{
  ℕ, zero, suc, ◌*◌, ◌≤◌, true, false, ◌<◌, String, ◌≡◌, refl, ap, ◌∙◌, length, length-append,
  chars, ltb, arith, ◌++◌, ◌∷◌,
}
use aideep_backend.Infra.Text.{digit, digits, to_string}

pub chars-append : (s t : String) → chars (s ++ˢ t) ≡ chars s ++ chars t
chars-append Prim.Native.String.[] t = ap chars (append.nil t)
chars-append (Prim.Native.String.◌∷◌ c s) t =
    ap chars (append.cons c s t) ∙ ap (λ l. c ∷ l) (chars-append s t)

abbrev text_length : String → ℕ
text_length s = length (chars s)

length-digit : (k : ℕ) → k < 10 → text_length (digit k) ≡ 1
length-digit zero h = refl
length-digit (suc zero) h = refl
length-digit (suc (suc zero)) h = refl
length-digit (suc (suc (suc zero))) h = refl
length-digit (suc (suc (suc (suc zero)))) h = refl
length-digit (suc (suc (suc (suc (suc zero))))) h = refl
length-digit (suc (suc (suc (suc (suc (suc zero)))))) h = refl
length-digit (suc (suc (suc (suc (suc (suc (suc zero))))))) h = refl
length-digit (suc (suc (suc (suc (suc (suc (suc (suc zero)))))))) h = refl
length-digit (suc (suc (suc (suc (suc (suc (suc (suc (suc zero))))))))) h = refl
length-digit (suc (suc (suc (suc (suc (suc (suc (suc (suc (suc n)))))))))) h = omega arith

-- the least number with one digit more than the given count
abbrev pub ten_to : ℕ → ℕ
ten_to zero = 1
ten_to (suc k) = 10 * ten_to k

ltb-true : (n : ℕ) → n < 10 → ltb n 10 ≡ true
ltb-true n h = ground arith

ltb-false : (n : ℕ) → 10 ≤ n → ltb n 10 ≡ false
ltb-false n h = ground arith

digits-small : (fuel n : ℕ) → n < 10 → text_length (digits (suc fuel) n) ≡ 1
digits-small fuel n h = rw (ltb-true n h) (length-digit n h)

digits-large :
    (fuel n : ℕ)
    → 10 ≤ n
    → text_length (digits (suc fuel) n) ≡ suc (text_length (digits fuel (n / 10)))
digits-large fuel n h = rw (ltb-false n h) (
    ap length (chars-append (digits fuel (n / 10)) (digit (n % 10)))
    ∙ length-append (chars (digits fuel (n / 10))) (chars (digit (n % 10)))
    ∙ omega (arith, length-digit (n % 10) (omega arith)))

ten_to-pos : (k : ℕ) → 1 ≤ ten_to k
ten_to-pos zero = omega arith
ten_to-pos (suc k) = omega (arith, ten_to-pos k)

length-digits :
    (k fuel n : ℕ)
    → ten_to k ≤ n
    → n < ten_to (suc k)
    → k < fuel
    → text_length (digits fuel n) ≡ suc k
length-digits k zero n low high enough = omega arith
length-digits zero (suc fuel) n low high enough = digits-small fuel n (omega arith)
length-digits (suc k) (suc fuel) n low high enough =
    digits-large fuel n (omega (arith, ten_to-pos k))
    ∙ ap suc (length-digits k fuel (n / 10) (omega arith) (omega arith) (omega arith))

-- A number of at most sixteen digits is written with exactly as many characters.
pub length-to_string :
    (k n : ℕ) → ten_to k ≤ n → n < ten_to (suc k) → k < 16 → length (chars (to_string n)) ≡ suc k
unfolding to_string
length-to_string k n low high small = length-digits k 16 n low high small
