-- ===== src/Qr/Tests/Parts.antt =====
-- Runs of the theorems on the parts of the service.
use sd_practice_qr_code_gene.Base.{
  ℕ, false, none, some, List, [], ◌∷◌, ◌++◌, ◌≡◌, refl, length, All, ◌≤◌,
}
use sd_practice_qr_code_gene.Base.{dec_lt}
use sd_practice_qr_code_gene.Base.Order.{lt_wf}
use sd_practice_qr_code_gene.Base.Text.{Text, codes, text_dec}
use sd_practice_qr_code_gene.Qr.UrlValidator
use sd_practice_qr_code_gene.Base.Text.{is_in, lower}
use sd_practice_qr_code_gene.Qr.UrlValidator.{
  Urllib, ParseResult, validate_url, blocked_domains, is_blocked_domain, rstrip_slash, lstrip_slash,
}
use sd_practice_qr_code_gene.Qr.Service.{ScanEvent}
use sd_practice_qr_code_gene.Qr.Token.{
  generate_token, from_bytes, nth, encode_loop, base62_encode, token_length,
}
use sd_practice_qr_code_gene.Qr.Token.RoundTrip.{base62_value, base62_value-encode}
use sd_practice_qr_code_gene.Qr.Token.Alphabet.{IsAlnum, generate_token-IsAlnum}
use sd_practice_qr_code_gene.Qr.UrlValidator.Accepted.{NoTrailingSlash, validate_url-ok}
use sd_practice_qr_code_gene.Qr.Routes.Create.{create_loop}
use sd_practice_qr_code_gene.Qr.Routes.Analytics.{count_scans, scans_by_day}
use sd_practice_qr_code_gene.Qr.Routes.Analytics.Days.{
  total, OncePerDay, listed, count_on, scans_by_day-total,
}
use sd_practice_qr_code_gene.Qr.Consumer.{Read, batch, failed, consume_all}
use sd_practice_qr_code_gene.Qr.Consumer.Rounds.{Stores, consume_all-Stores}
use sd_practice_qr_code_gene.Qr.Tests.{
  Tables, test_database, test_lib, test_hash, row, one_link, accepted,
}

validate_url-ok_example :
    (length (codes "http://A.io/q/") ≤ 2048)
    × ((t : Text) × (codes "https://a.io/q" ≡ codes "https:" ++ t))
    × NoTrailingSlash (codes "https://a.io/q")
    × ((p : ParseResult) × (host : Text) × (test_lib.urlparse (codes "http://A.io/q/")
          ≡ UrlValidator.ok p)
        × (p.hostname ≡ some host)
        × (is_in (lower host) blocked_domains ≡ false))
validate_url-ok_example = validate_url-ok test_lib (codes "http://A.io/q/") accepted

base62_value-encode_example : base62_value (base62_encode (1 ∷ 2 ∷ [])) ≡ from_bytes (1 ∷ 2 ∷ [])
base62_value-encode_example = base62_value-encode (1 ∷ 2 ∷ [])

generate_token-IsAlnum_example :
    (length (generate_token test_hash (codes "https://x.io") 5) ≤ token_length)
    × All IsAlnum (generate_token test_hash (codes "https://x.io") 5)
generate_token-IsAlnum_example = generate_token-IsAlnum test_hash (codes "https://x.io") 5

-- The one token that the hash gives is taken.
abbrev taken_tables : Tables
taken_tables = record {
  rows = record row { token = generate_token test_hash (codes "https://x.io") 0 } ∷ [];
  events = [];
}

taken : create_loop test_hash test_database (λ i. i) taken_tables row 2 0 ≡ none
unfolding create_loop generate_token base62_encode encode_loop nth from_bytes text_dec lt_wf dec_lt
taken = refl

abbrev scan : ScanEvent
scan = record {
  token = codes "abc";
  scanned_at = 86400000001;
  user_agent = none;
  ip_address = none;
}

scans_by_day-total_example :
    (total (scans_by_day (codes "abc") (scan ∷ scan ∷ []))
      ≡ count_scans (codes "abc") (scan ∷ scan ∷ []))
    × OncePerDay (scans_by_day (codes "abc") (scan ∷ scan ∷ []))
    × ((day : ℕ)
        → listed day (scans_by_day (codes "abc") (scan ∷ scan ∷ []))
          ≡ count_on (codes "abc") day (scan ∷ scan ∷ []))
scans_by_day-total_example = scans_by_day-total (codes "abc") (scan ∷ scan ∷ [])

-- A message that is stored, and one whose token is too long.
abbrev reads : List (Read ℕ)
reads =
    failed
    ∷ batch ((1, record { token = codes "abc"; user_agent = []; ip = codes "::1"; ts = 4 }) ∷ [])
    ∷ batch ((2, record { token = codes "abcdefghi"; user_agent = []; ip = []; ts = 5 }) ∷ [])
    ∷ []

consume_all-Stores_example :
    Stores test_database one_link.db reads (consume_all test_database one_link.db reads)
consume_all-Stores_example = consume_all-Stores test_database one_link.db reads
