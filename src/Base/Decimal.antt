-- ===== src/Base/Decimal.antt =====
-- Python's `str` of a number.
use mathlib.Core.List.{[], ◌∷◌}
use mathlib.Core.Option.{Option, none, some}
use mathlib.Core.Path.{◌≡◌, refl, sym, ◌∙◌, ap}
use mathlib.Core.Bool.{◌&&◌}
use sd_practice_qr_code_gene.Base.Tests.{leb, if◌then◌else◌}
use mathlib.Core.Logic.{dite, dif_pos, dif_neg}
use mathlib.Core.WellFounded.{Acc}
use native.Mathlib.Decide.{dec_lt}
use native.Mathlib.Bridge.{le_prop}
use native.Mathlib.Omega.{arith}
use Prim.Native.Nat.{ℕ, ◌+◌, ◌-◌, ◌*◌, ◌/◌, ◌%◌, ◌<◌}
use sd_practice_qr_code_gene.Base.Order.{lt_wf}
use sd_practice_qr_code_gene.Base.Text.{Text}

pub div10-lt : (n : ℕ) → 9 < n → n / 10 < n
div10-lt n h = omega arith

-- `str(n)` of a number
unfoldable pub decimal_loop : (num : ℕ) → Acc ◌<◌ num → Text → Text
decimal_loop num (Acc.intro _ smaller) result =
    dite (dec_lt 9 num)
      (λ h.
        decimal_loop (num / 10) (smaller (num / 10) (div10-lt num h)) ((48 + num % 10) ∷ result))
      (λ _. (48 + num) ∷ result)

unfoldable pub decimal : ℕ → Text
decimal n = decimal_loop n (lt_wf n) []

-- `int(s)` of a text of ASCII digits; any other text is refused.
unfoldable pub parse_loop : ℕ → Text → Option ℕ
parse_loop acc [] = some acc
parse_loop acc (c ∷ s) =
    let rest = parse_loop (acc * 10 + (c - 48)) s in if leb 48 c && leb c 57 then rest else none

unfoldable pub parse_int : Text → Option ℕ
parse_int [] = none
parse_int (c ∷ s) = parse_loop 0 (c ∷ s)

-- One more digit is read.
parse_digit :
    (acc d : ℕ) (s : Text) → d < 10 → parse_loop acc ((48 + d) ∷ s) ≡ parse_loop (acc * 10 + d) s
unfolding parse_loop
parse_digit acc d s h =
    let shown : acc * 10 + (48 + d - 48) ≡ acc * 10 + d = omega arith in rw shown (ground arith)

parse_loop-decimal_loop :
    (n : ℕ) (a : Acc ◌<◌ n) (result : Text)
    → parse_loop 0 (decimal_loop n a result) ≡ parse_loop n result
unfolding decimal_loop
parse_loop-decimal_loop n (Acc.intro _ smaller) result = elim (dec_lt 9 n) [
  | yes h ↦ rw (dif_pos _ le_prop h) (
      parse_loop-decimal_loop (n / 10) (smaller (n / 10) (div10-lt n h)) ((48 + n % 10) ∷ result)
      ∙ parse_digit (n / 10) (n % 10) result (omega arith)
      ∙ ap (λ m. parse_loop m result) (omega arith))
  | no h ↦
      rw (dif_neg _ h)
        (parse_digit 0 n result (omega arith) ∙ ap (λ m. parse_loop m result) (omega arith))
]

decimal_loop-cons :
    (n : ℕ) (a : Acc ◌<◌ n) (result : Text)
    → (c : ℕ) × (s : Text) × (decimal_loop n a result ≡ c ∷ s)
unfolding decimal_loop
decimal_loop-cons n (Acc.intro _ smaller) result = elim (dec_lt 9 n) [
  | yes h ↦
      rw (dif_pos _ le_prop h)
        (decimal_loop-cons (n / 10) (smaller (n / 10) (div10-lt n h)) ((48 + n % 10) ∷ result))
  | no h ↦ rw (dif_neg _ h) (48 + n, result, refl)
]

-- A number is read back.
pub parse_int-decimal : (n : ℕ) → parse_int (decimal n) ≡ some n
unfolding parse_int decimal parse_loop
parse_int-decimal n =
    let (c, s, e) = decimal_loop-cons n (lt_wf n) [] in
    rw e (sym (ap (parse_loop 0) e) ∙ parse_loop-decimal_loop n (lt_wf n) [])
