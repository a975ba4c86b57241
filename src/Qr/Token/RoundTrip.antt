-- ===== src/Qr/Token/RoundTrip.antt =====
-- `base62_encode` loses nothing but leading zero bytes.
use mathlib.Core.WellFounded.{Acc}
use mathlib.Core.List.{reverse-cons}
use mathlib.Core.Logic.{dif_pos, dif_neg}
use native.Mathlib.Bridge.{le_prop}
use sd_practice_qr_code_gene.Base.{
  ℕ, suc, ◌+◌, ◌*◌, ◌/◌, ◌%◌, ◌<◌, List, [], ◌∷◌, ◌++◌, reverse, arith, ◌==◌, ◌≡◌, ◌∙◌, refl,
  if◌then◌else◌, dec_lt, ap, Bool-cases, true, inl, inr, sym,
}
use sd_practice_qr_code_gene.Base.Text.{Text}
use sd_practice_qr_code_gene.Base.Order.{lt_wf, passes_under, passes_under_at}
use sd_practice_qr_code_gene.Qr.Token.{
  base62_chars, nth, from_bytes, div62-lt, encode_loop, base62_encode,
}

position : ℕ → Text → ℕ
position c [] = 0
position c (d ∷ s) = if c == d then 0 else suc (position c s)

-- The value of one character of the alphabet.
pub digit_value : ℕ → ℕ
unfolding position
digit_value c = position c base62_chars

value_from : ℕ → Text → ℕ
value_from n [] = n
value_from n (c ∷ s) = value_from (n * 62 + digit_value c) s

-- A text read as a number in base 62, the highest digit first.
pub base62_value : Text → ℕ
unfolding value_from
base62_value s = value_from 0 s

digits_table : passes_under (λ i. digit_value (nth base62_chars i) == i) 62 ≡ true
unfolding passes_under digit_value nth
digits_table = refl

digit_value-nth : (i : ℕ) → i < 62 → digit_value (nth base62_chars i) ≡ i
digit_value-nth i h = ground (arith, passes_under_at _ 62 i h digits_table)

-- The value, the lowest digit first.
low : Text → ℕ
low [] = 0
low (c ∷ s) = digit_value c + 62 * low s

weight : Text → ℕ
weight [] = 1
weight (c ∷ s) = 62 * weight s

weight-append : (s : Text) (c : ℕ) → weight (s ++ c ∷ []) ≡ 62 * weight s
unfolding weight
weight-append [] c = refl
weight-append (d ∷ s) c = omega (arith, weight-append s c)

low-append : (s : Text) (c : ℕ) → low (s ++ c ∷ []) ≡ low s + weight s * digit_value c
unfolding low weight
low-append [] c = omega arith
low-append (d ∷ s) c = omega (arith, low-append s c)

value_from-append :
    (n : ℕ) (s : Text) (c : ℕ) → value_from n (s ++ c ∷ []) ≡ value_from n s * 62 + digit_value c
unfolding value_from
value_from-append n [] c = refl
value_from-append n (d ∷ s) c = value_from-append (n * 62 + digit_value d) s c

base62_value-reverse : (s : Text) → base62_value (reverse s) ≡ low s
unfolding base62_value low
base62_value-reverse [] = refl
base62_value-reverse (c ∷ s) =
    rw (reverse-cons c s, value_from-append 0 (reverse s) c) (omega (arith, base62_value-reverse s))

low-encode_loop :
    (num : ℕ) (w : Acc ◌<◌ num) (s : Text) → low (encode_loop num w s) ≡ low s + weight s * num
unfolding encode_loop
low-encode_loop num (Acc.intro _ smaller) s =
    let c = nth base62_chars (num % 62) in
    let e : num ≡ 62 * (num / 62) + num % 62 = omega arith in
    let d : digit_value c ≡ num % 62 = digit_value-nth (num % 62) (omega arith) in
    elim (dec_lt 0 num) [
      | yes p ↦
          rw
            (
              dif_pos _ le_prop p,
              low-encode_loop (num / 62) (smaller (num / 62) (div62-lt num p)) (s ++ c ∷ []),
              low-append s c,
              weight-append s c,
              d,
            )
            (omega (arith, ap (λ t. weight s * t) e))
      | no p ↦ rw (dif_neg _ p) (let z : num ≡ 0 = omega arith in rw z (omega arith))
    ]

zero_case : base62_value (nth base62_chars 0 ∷ []) ≡ 0
unfolding base62_value digit_value nth
zero_case = refl

==→≡ : (a b : ℕ) → (a == b) ≡ true → a ≡ b
==→≡ a b h = ground arith

-- Decoding the text gives back the number that the bytes stand for, zero included.
pub base62_value-encode : (data' : List ℕ) → base62_value (base62_encode data') ≡ from_bytes data'
unfolding base62_encode weight low
base62_value-encode data' = elim (Bool-cases (from_bytes data' == 0)) [
  | inl z ↦ rw z (zero_case ∙ sym (==→≡ _ _ z))
  | inr z ↦
      rw (z, base62_value-reverse (encode_loop (from_bytes data') (lt_wf (from_bytes data')) []))
        (rw low-encode_loop (omega arith))
]
