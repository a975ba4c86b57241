-- ===== src/Notify/Routes/RateLimit/Keys.antt =====
-- The keys of the counters.
use Prim.Native.Nat.{ℕ, ◌+◌, ◌/◌, ◌%◌, ◌<◌}
use mathlib.Core.Logic.{dif_pos, dif_neg}
use mathlib.Core.WellFounded.{Acc}
use mathlib.Core.Option.{some-injective}
use mathlib.Core.List.{
  append_assoc, append_cancel_left, nil≢cons, head-eq_of_cons-eq, tail-eq_of_cons-eq,
}
use native.Mathlib.Bridge.{le_prop}
use sd_practice_qr_code_gene.Base.{◌≡◌, ◌≢◌, [], ◌∷◌, ◌++◌, arith, refl, sym, ap, ◌∙◌, All, dec_lt}
use sd_practice_qr_code_gene.Base.Order.{lt_wf}
use sd_practice_qr_code_gene.Base.Text.{Text, codes}
use sd_practice_qr_code_gene.Base.Decimal.{
  decimal, decimal_loop, div10-lt, parse_int, parse_int-decimal,
}
use sd_practice_qr_code_gene.Notify.Routes.RateLimit.{rate_limit_key}

-- No colon in a text.
NoColon : Text → Type 0
NoColon = All (λ c. c ≢ 58)

decimal_loop-NoColon :
    (n : ℕ) (a : Acc ◌<◌ n) (result : Text) → NoColon result → NoColon (decimal_loop n a result)
unfolding decimal_loop NoColon
decimal_loop-NoColon n (Acc.intro _ smaller) result h = elim (dec_lt 9 n) [
  | yes big ↦ rw (dif_pos _ le_prop big) (
      decimal_loop-NoColon (n / 10) (smaller (n / 10) (div10-lt n big)) ((48 + n % 10) ∷ result)
        ((λ e. omega arith), h))
  | no small ↦ rw (dif_neg _ small) ((λ e. omega arith), h)
]

decimal-NoColon : (n : ℕ) → NoColon (decimal n)
unfolding decimal NoColon
decimal-NoColon n = decimal_loop-NoColon n (lt_wf n) [] tt

-- A text without a colon does not go on after one.
no_later_colon : (u x y : Text) → NoColon x → ¬ (x ≡ u ++ 58 ∷ y)
unfolding NoColon
no_later_colon [] [] y h e = nil≢cons e
no_later_colon (b ∷ u) [] y h e = nil≢cons e
no_later_colon [] (c ∷ x) y (h, _) e = h (head-eq_of_cons-eq e)
no_later_colon (b ∷ u) (c ∷ x) y (_, h) e = no_later_colon u x y h (tail-eq_of_cons-eq e)

-- A text has one last colon.
last_colon :
    (u v x y : Text) → NoColon x → NoColon y → u ++ 58 ∷ x ≡ v ++ 58 ∷ y → (u ≡ v) × (x ≡ y)
last_colon [] [] x y h k e = (refl, tail-eq_of_cons-eq e)
last_colon [] (b ∷ v) x y h k e = absurd (no_later_colon v x y h (tail-eq_of_cons-eq e))
last_colon (a ∷ u) [] x y h k e = absurd (no_later_colon u y x k (sym (tail-eq_of_cons-eq e)))
last_colon (a ∷ u) (b ∷ v) x y h k e =
    let (front, back) = last_colon u v x y h k (tail-eq_of_cons-eq e) in
    (ground (arith, head-eq_of_cons-eq e, front), back)

-- Two pairs of a user and a window have two keys.
pub rate_limit_key-injective :
    (u v : Text) (b c : ℕ) → rate_limit_key u b ≡ rate_limit_key v c → (u ≡ v) × (b ≡ c)
unfolding rate_limit_key
rate_limit_key-injective u v b c e =
    let (user, shown) =
      last_colon u v (decimal b) (decimal c) (decimal-NoColon b) (decimal-NoColon c) (
        sym (append_assoc u (58 ∷ []) (decimal b))
        ∙ append_cancel_left (codes "ratelimit:") _ _ e
        ∙ append_assoc v (58 ∷ []) (decimal c)) in
    (
      user,
      some-injective b c (sym (parse_int-decimal b) ∙ ap parse_int shown ∙ parse_int-decimal c),
    )
