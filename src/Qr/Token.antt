-- ===== src/Qr/Token.antt =====
-- qr_code_generator/scaffold/app/token_gen.py. SHA-256 (of the UTF-8 encoding of its argument) is
-- a parameter; the clock reading `time.time_ns()` is an argument.
pub mod RoundTrip
pub mod Alphabet
use mathlib.Core.Logic.{dite}
use mathlib.Core.List.{foldl}
use mathlib.Core.WellFounded.{Acc}
use sd_practice_qr_code_gene.Base.{
  ℕ, zero, suc, ◌+◌, ◌*◌, ◌/◌, ◌%◌, ◌<◌, List, [], ◌∷◌, ◌++◌, reverse, take, arith, ◌==◌,
  if◌then◌else◌, dec_lt,
}
use sd_practice_qr_code_gene.Base.Text.{Text, codes}
use sd_practice_qr_code_gene.Base.Decimal.{decimal}
use sd_practice_qr_code_gene.Base.Order.{lt_wf}

abbrev pub base62_chars : Text
base62_chars = codes "abcdefghijklmnopqrstuvwxyzABCDEFGHIJKLMNOPQRSTUVWXYZ0123456789"

abbrev pub token_length : ℕ
token_length = 7

-- `s[i]`; every index that the program uses is in range, see `Alphabet`.
unfoldable pub nth : Text → ℕ → ℕ
nth [] i = 0
nth (c ∷ s) zero = c
nth (c ∷ s) (suc i) = nth s i

-- `int.from_bytes(data, "big")`
unfoldable pub from_bytes : List ℕ → ℕ
from_bytes = foldl (λ n b. n * 256 + b) 0

pub div62-lt : (n : ℕ) → 0 < n → n / 62 < n
div62-lt n h = omega arith

-- `while num > 0`: the rounds append the digits, the lowest first.
unfoldable pub encode_loop : (num : ℕ) → Acc ◌<◌ num → List ℕ → List ℕ
encode_loop num (Acc.intro _ smaller) result =
    dite (dec_lt 0 num)
      (λ h.
        encode_loop (num / 62) (smaller (num / 62) (div62-lt num h))
          (result ++ nth base62_chars (num % 62) ∷ []))
      (λ _. result)

unfoldable pub base62_encode : List ℕ → Text
base62_encode data' =
    let num = from_bytes data' in
    if num == 0 then nth base62_chars 0 ∷ [] else reverse (encode_loop num (lt_wf num) [])

module _ (sha256 : Text → List ℕ) where
  unfoldable pub generate_token : Text → ℕ → Text
  generate_token url time_ns =
      let nonce = decimal time_ns in take token_length (base62_encode (sha256 (url ++ nonce)))
