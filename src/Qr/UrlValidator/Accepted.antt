-- ===== src/Qr/UrlValidator/Accepted.antt =====
-- What an accepted URL looks like.
use mathlib.Core.List.{reverse-append, reverse-reverse, reverse-cons, append_assoc}
use sd_practice_qr_code_gene.Base.{
  ℕ, ◌≤◌, [], ◌∷◌, ◌++◌, reverse, false, Option, none, some, length, if_pos, if_neg, ◌≡◌, ◌≢◌, ◌∙◌,
  ap, sym, refl, arith, ℕ_discrete, inl, inr,
}
use sd_practice_qr_code_gene.Base.Text.{Text, codes, lower, is_in}
use sd_practice_qr_code_gene.Qr.UrlValidator.{
  Urllib, Result-cases, ParseResult, ok, validate_url, is_blocked_domain, rstrip_slash,
  lstrip_slash, max_url_length, blocked_domains,
}

lstrip_slash-append :
    (s t : Text) (c : ℕ) → c ≢ 47 → (t' : Text) × (lstrip_slash (t ++ c ∷ s) ≡ t' ++ c ∷ s)
unfolding lstrip_slash
lstrip_slash-append s [] c h = ([], rw (if_neg _ h))
lstrip_slash-append s (d ∷ t) c h = elim (ℕ_discrete d 47) [
  | yes p ↦ let (t', e) = lstrip_slash-append s t c h in (t', rw (if_pos _ p) e)
  | no p ↦ (d ∷ t, rw (if_neg _ p))
]

-- Stripping slashes stops at the last character that is none.
rstrip_slash-append :
    (s t : Text) (c : ℕ) → c ≢ 47 → (t' : Text) × (rstrip_slash (s ++ c ∷ t) ≡ s ++ c ∷ t')
unfolding rstrip_slash
rstrip_slash-append s t c h =
    let (t', e) = lstrip_slash-append (reverse s) (reverse t) c h in
    (
      reverse t',
      simp (reverse-append, reverse-cons, append_assoc)
          (rw e (simp (reverse-append, reverse-cons, append_assoc, reverse-reverse))),
    )

-- The last character is no slash.
abbrev pub NoTrailingSlash : Text → Type 0
NoTrailingSlash url = (s : Text) → url ≢ s ++ codes "/"

lstrip_slash-head : (s t : Text) → lstrip_slash s ≢ 47 ∷ t
unfolding lstrip_slash
lstrip_slash-head [] t e = ground arith
lstrip_slash-head (c ∷ s) t e = ground (arith, lstrip_slash-head s t)

rstrip_slash-NoTrailingSlash : (s : Text) → NoTrailingSlash (rstrip_slash s)
unfolding rstrip_slash
rstrip_slash-NoTrailingSlash s t e =
    lstrip_slash-head (reverse s) (reverse t) (
      sym (reverse-reverse (lstrip_slash (reverse s)))
      ∙ ap reverse e
      ∙ reverse-append t (codes "/"))

-- What `validate_url` hands to `geturl`.
abbrev normalized : ParseResult → ParseResult
normalized p = record p { scheme = codes "https"; netloc = lower p.netloc }

hostname_cases :
    (o : Option Text)
    → is_blocked_domain o ≡ false
    → (host : Text) × (o ≡ some host) × (is_in (lower host) blocked_domains ≡ false)
unfolding is_blocked_domain
hostname_cases none h = absurd (cc)
hostname_cases (some host) h = (host, refl, h)

-- The tests that an accepted URL has passed.
validate_url_inv :
    (lib : Urllib) (url : Text) {r : Text}
    → validate_url lib url ≡ ok r
    → (p : ParseResult) × (length url ≤ max_url_length)
      × (lib.urlparse url ≡ ok p)
      × (is_blocked_domain p.hostname ≡ false)
      × (r ≡ rstrip_slash (lib.geturl (normalized p)))
unfolding validate_url
validate_url_inv lib url {r} h = elim (Result-cases (lib.urlparse url)) [
  | inl (x, e) ↦ absurd (ground arith)
  | inr (p, e) ↦ (p, ground arith, e, ground arith, ground arith)
]

normalized_https :
    (lib : Urllib) (p : ParseResult)
    → (t : Text) × (rstrip_slash (lib.geturl (normalized p)) ≡ codes "https:" ++ t)
normalized_https lib p =
    let (t, e) = lib.geturl_scheme (normalized p) (λ x. ground arith) in
    let (t', e') = rstrip_slash-append (codes "https") t 58 (λ x. omega arith) in (t', rw e e')

-- If a URL is accepted, the result is an https URL with no slash at its end, the URL's length was
-- within the limit and its host is named and not on the block list.
pub validate_url-ok :
    (lib : Urllib) (url : Text) {r : Text}
    → validate_url lib url ≡ ok r
    → (length url ≤ max_url_length)
      × ((t : Text) × (r ≡ codes "https:" ++ t))
      × NoTrailingSlash r
      × ((p : ParseResult) × (host : Text) × (lib.urlparse url ≡ ok p)
          × (p.hostname ≡ some host)
          × (is_in (lower host) blocked_domains ≡ false))
validate_url-ok lib url {r} h =
    let (p, short, parsed, free, e) = validate_url_inv lib url h in
    let (t, https) = normalized_https lib p in
    let (host, named, listed) = hostname_cases p.hostname free in
    (
      short,
      (t, e ∙ https),
      rw e (rstrip_slash-NoTrailingSlash (lib.geturl (normalized p))),
      (p, host, parsed, named, listed),
    )
