-- ===== src/Qr/UrlValidator.antt =====
-- qr_code_generator/scaffold/app/url_validator.py. `urllib.parse` is an interface: the parsed
-- parts, and what `geturl` documents. A refusal carries its kind in place of its message, and
-- `lower` maps the ASCII letters.
use sd_practice_qr_code_gene.Base.{
  ℕ, ◌+◌, List, [], ◌∷◌, ◌++◌, map, reverse, Bool, true, false, ◌||◌, not, ◌&&◌, Option, none, some,
  ltb, leb, length, if◌then◌else◌, ite, ◌≡◌, ◌≢◌, ◌⊎◌, inl, inr, refl, ℕ_discrete,
}
use sd_practice_qr_code_gene.Base.Text.{Text, codes, lower, is_in, text_dec}
pub mod Accepted

pub data Error : Type 0 where
  too_long : Error
  bad_scheme : Error
  blocked : Option Text → Error
  -- what `urlparse` raises
  malformed : Error

pub data Result {ℓ} (A : Type ℓ) : Type ℓ where
  ok : A → Result A
  raise : Error → Result A

pub Result-cases {ℓ} :
    {A : Type ℓ} (r : Result A) → ((e : Error) × (r ≡ raise e)) ⊎ ((a : A) × (r ≡ ok a))
Result-cases (ok a) = inr (a, refl)
Result-cases (raise e) = inl (e, refl)

infixl 5 ◌>>=◌
abbrev pub ◌>>=◌ {ℓ κ} : {A : Type ℓ} {B : Type κ} → Result A → (A → Result B) → Result B
ok a >>= f = f a
raise e >>= f = raise e

abbrev pub max_url_length : ℕ
max_url_length = 2048

abbrev pub blocked_domains : List Text
blocked_domains = codes "evil.com" ∷ codes "malware.example.com" ∷ codes "phishing.example.com" ∷ []

-- `ParseResult`; `rest` stands for path, params, query and fragment.
pub record ParseResult : Type 0 where
  pub scheme : Text
  pub netloc : Text
  pub rest : Text
  pub hostname : Option Text

-- `urllib.parse`
pub record Urllib : Type 0 where
  pub urlparse : Text → Result ParseResult
  pub geturl : ParseResult → Text
  -- `geturl` puts a scheme and its colon in front
  pub geturl_scheme :
      (p : ParseResult) → p.scheme ≢ [] → (t : Text) × (geturl p ≡ p.scheme ++ codes ":" ++ t)

-- `s.rstrip("/")`, along the reversed text
unfoldable pub lstrip_slash : Text → Text
lstrip_slash [] = []
lstrip_slash (c ∷ s) = let rest = lstrip_slash s in ite (ℕ_discrete c 47) rest (c ∷ s)

unfoldable pub rstrip_slash : Text → Text
rstrip_slash s = reverse (lstrip_slash (reverse s))

unfoldable pub is_blocked_domain : Option Text → Bool
is_blocked_domain none = true
is_blocked_domain (some hostname) = is_in (lower hostname) blocked_domains

unfoldable pub validate_url : Urllib → Text → Result Text
validate_url lib url = if ltb max_url_length (length url) then raise too_long else do
  parsed ← lib.urlparse url
  if not (is_in parsed.scheme (codes "http" ∷ codes "https" ∷ []))
      then raise bad_scheme
      else if is_blocked_domain parsed.hostname
      then raise (blocked parsed.hostname)
      else ok (
          rstrip_slash
            (lib.geturl (record parsed { scheme = codes "https"; netloc = lower parsed.netloc })))
