-- ===== src/Auth/Service/Codes.antt =====
-- The codes that `sendMail` of auth/auth.service.ts draws.
use Prim.Native.Nat.{◌/◌}
use native.Mathlib.Nat
use aideep_backend.Common.{
  ℕ, List, ◌*◌, String, ◌≡◌, ◌≤◌, ◌<◌, refl, some, [], length, chars, arith,
}
use aideep_backend.Auth.Service.{send_code, mail_code}
use aideep_backend.Auth.Tokens.{Tokens}
use aideep_backend.Infra.Action.{returned}
use aideep_backend.Infra.Platform.{Platform}
use aideep_backend.Infra.Text.{to_string}
use aideep_backend.Infra.Text.Digits.{length-to_string}
use aideep_backend.Infra.World.{World, next_random, next_draw, draw_code, redis_set, send_mail}

module _ (P : Platform) (T : Tokens) where
  drawn_below : (k : ℕ) → k < 9007199254740992 → k * 900000 / 9007199254740992 < 900000
  drawn_below k h = (Nat.div-lt_iff_lt-mul (omega arith)).1 (omega arith)

  next_draw-bounds :
      (draws : List ℕ)
      → next_random P draws < 9007199254740992
      → (100000 ≤ next_draw P draws) × (next_draw P draws < 1000000)
  unfolding next_draw
  next_draw-bounds draws h =
      let below = drawn_below (next_random P draws) h in (omega arith, omega arith)

  -- While Redis answers, and where `Math.random()` is below one as it is documented, a mail to an address returns a code of exactly six digits: the text of a number from 100000 to 999999.
  pub send_code-six_digits :
      (email : String) (w : World P)
      → w.outages ≡ []
      → next_random P w.draws < 9007199254740992
      → (n : ℕ) × ((send_code P T email w).0 ≡ returned (some (to_string n)))
        × (100000 ≤ n)
        × (n < 1000000)
        × (length (chars (to_string n)) ≡ 6)
  unfolding send_code mail_code draw_code redis_set send_mail
  send_code-six_digits email w answers random =
      let (low, high) = next_draw-bounds w.draws random in
      rw answers (
        next_draw P w.draws,
        refl,
        low,
        high,
        length-to_string 5 (next_draw P w.draws) low high (omega arith),
      )
