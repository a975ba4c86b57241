-- ===== src/Qr/Token/Alphabet.antt =====
-- Tokens are short and need no escaping in a URL.
use mathlib.Core.List.{reverse-cons}
use mathlib.Core.Logic.{dif_pos, dif_neg}
use mathlib.Core.WellFounded.{Acc}
use native.Mathlib.Bridge.{le_prop}
use sd_practice_qr_code_gene.Base.{
  ℕ, ◌/◌, ◌%◌, ◌≤◌, ◌<◌, List, [], ◌∷◌, ◌++◌, reverse, arith, ◌≡◌, refl, Bool, true, ◌&&◌, ◌||◌,
  leb, dec_lt, ◌==◌, Bool-cases, inl, inr, All, All-append, All-take, length, length-take-le,
}
use sd_practice_qr_code_gene.Base.Text.{Text}
use sd_practice_qr_code_gene.Base.Order.{lt_wf, passes_under, passes_under_at}
use sd_practice_qr_code_gene.Qr.Token.{
  base62_chars, nth, from_bytes, div62-lt, encode_loop, base62_encode, generate_token, token_length,
}

-- ASCII letters and digits.
pub is_alnum : ℕ → Bool
is_alnum c = (leb 97 c && leb c 122) || (leb 65 c && leb c 90) || (leb 48 c && leb c 57)

abbrev pub IsAlnum : ℕ → Type 0
IsAlnum c = is_alnum c ≡ true

alnum_table : passes_under (λ i. is_alnum (nth base62_chars i)) 62 ≡ true
unfolding passes_under is_alnum nth
alnum_table = refl

nth-IsAlnum : (i : ℕ) → i < 62 → IsAlnum (nth base62_chars i)
nth-IsAlnum i h = passes_under_at (λ j. is_alnum (nth base62_chars j)) 62 i h alnum_table

All-reverse : (s : Text) → All IsAlnum s → All IsAlnum (reverse s)
All-reverse [] h = tt
All-reverse (c ∷ s) h =
    rw (reverse-cons c s) (All-append IsAlnum (reverse s) (c ∷ []) (All-reverse s h.1) (h.0, tt))

All-encode_loop :
    (num : ℕ) (w : Acc ◌<◌ num) (s : Text) → All IsAlnum s → All IsAlnum (encode_loop num w s)
unfolding encode_loop
All-encode_loop num (Acc.intro _ smaller) s h = elim (dec_lt 0 num) [
  | yes p ↦ rw (dif_pos _ le_prop p) (
      All-encode_loop (num / 62) (smaller (num / 62) (div62-lt num p)) (s ++ c ∷ [])
        (All-append IsAlnum s (c ∷ []) h (nth-IsAlnum (num % 62) (omega arith), tt)))
  | no p ↦ rw (dif_neg _ p) h
]
  where
    c : ℕ
    c = nth base62_chars (num % 62)

All-base62_encode : (data' : List ℕ) → All IsAlnum (base62_encode data')
unfolding base62_encode
All-base62_encode data' = elim (Bool-cases (from_bytes data' == 0)) [
  | inl z ↦ rw z (nth-IsAlnum 0 (omega arith), tt)
  | inr z ↦ rw z (All-reverse _ (All-encode_loop _ (lt_wf (from_bytes data')) [] tt))
]

-- Whatever the hash, a token has at most seven characters, each a letter or a digit.
pub generate_token-IsAlnum :
    (sha256 : Text → List ℕ) (url : Text) (time_ns : ℕ)
    → (length (generate_token sha256 url time_ns) ≤ token_length)
      × All IsAlnum (generate_token sha256 url time_ns)
unfolding generate_token
generate_token-IsAlnum sha256 url time_ns =
    (length-take-le 7 _, All-take IsAlnum 7 _ (All-base62_encode _))
