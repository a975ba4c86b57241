-- ===== src/Qr/Tests.antt =====
-- Instances of the interfaces of the QR-code service, and a state of it.
mod Links
mod Parts
use sd_practice_qr_code_gene.Base.{
  ℕ, ◌+◌, false, Option, none, some, List, [], ◌∷◌, ◌++◌, ◌≡◌, ◌≢◌, refl, arith, ite, if_pos,
  if_neg, Option-cases, inl, inr, map, length, All, ◌≤◌,
}
use sd_practice_qr_code_gene.Base.{dec_lt}
use sd_practice_qr_code_gene.Base.Order.{lt_wf}
use sd_practice_qr_code_gene.Base.Text.{Text, codes, text_dec}
use sd_practice_qr_code_gene.Qr.UrlValidator
use sd_practice_qr_code_gene.Base.Text.{is_in, lower, lower_char}
use sd_practice_qr_code_gene.Qr.UrlValidator.{
  Urllib, ParseResult, validate_url, blocked_domains, is_blocked_domain, rstrip_slash, lstrip_slash,
}
use sd_practice_qr_code_gene.Base.{if◌then◌else◌}
use sd_practice_qr_code_gene.Qr.Service.{
  all_fit, UrlMapping, ScanEvent, Key, key_dec, Redis, Database, Metrics, World,
}
use sd_practice_qr_code_gene.Qr.Token.{
  generate_token, from_bytes, nth, encode_loop, base62_encode, token_length,
}
use sd_practice_qr_code_gene.Qr.Cache.{get_cached_url, decode, is_cached_gone}
use sd_practice_qr_code_gene.Qr.Token.RoundTrip.{base62_value, base62_value-encode}
use sd_practice_qr_code_gene.Qr.Token.Alphabet.{IsAlnum, generate_token-IsAlnum}
use sd_practice_qr_code_gene.Qr.UrlValidator.Accepted.{NoTrailingSlash, validate_url-ok}
use sd_practice_qr_code_gene.Qr.Cache.RateLimit.{allowed, allowed-window}
use sd_practice_qr_code_gene.Qr.Routes.{CreateRequest, ok, raise, is_expired}
use sd_practice_qr_code_gene.Qr.Routes.Create.{new_mapping, create_loop, created, create_body}
use sd_practice_qr_code_gene.Qr.Routes.Redirect.{redirect, redirect_miss, redirect_row}
use sd_practice_qr_code_gene.Qr.Routes.Update.{update_qr, delete_qr}
use sd_practice_qr_code_gene.Qr.Routes.Coherence.{IsLive}
use sd_practice_qr_code_gene.Qr.Routes.Keeps.{IsSound}
use sd_practice_qr_code_gene.Qr.Routes.Reach.{redirects, deletes, Reach, here, next, Reach-IsSound}
use sd_practice_qr_code_gene.Qr.Routes.Responses.{
  redirect-IsLive, delete-redirect, create_loop-taken,
}
use sd_practice_qr_code_gene.Qr.Routes.Races.{after_race, redirect-after_race}
use sd_practice_qr_code_gene.Qr.Routes.Changes.{create-redirect, update-redirect}
use sd_practice_qr_code_gene.Qr.Routes.Analytics.{count_scans, scans_by_day}
use sd_practice_qr_code_gene.Qr.Routes.Analytics.Days.{
  total, OncePerDay, listed, count_on, scans_by_day-total,
}

-- What is stored under the keys, and the counters.
pub record Store : Type 0 where
  pub held : Key → Option Text
  pub counts : Key → ℕ

abbrev pub test_redis : Redis
test_redis = record {
  State = Store;
  get = λ s k. s.held k;
  count = λ s k. s.counts k;
  set_ex = λ s k v ex. record s { held = λ j. ite (key_dec k j) (some v) (s.held j) };
  delete = λ s k. record s { held = λ j. ite (key_dec k j) none (s.held j) };
  incr = λ s k. record s { counts = λ j. ite (key_dec k j) (s.counts j + 1) (s.counts j) };
  expire = λ s k t. s;
  xadd = λ s f. s;
  get-set_ex = λ s k j v ex h. refl;
  get-delete = λ s k j. refl;
  count-incr = λ s k j. refl;
  count-expire = λ s k j t h. refl;
  get-incr = λ s t k n. refl;
  get-expire = λ s k j t h. refl;
  get-xadd = λ s f k. refl;
}

-- The rows, the newest first, and the scans.
pub record Tables : Type 0 where
  pub rows : List UrlMapping
  pub events : List ScanEvent

abbrev pub find_row : List UrlMapping → Text → Option UrlMapping
find_row [] t = none
find_row (m ∷ ms) t = let rest = find_row ms t in ite (text_dec m.token t) (some m) rest

abbrev pub insert_row : Tables → UrlMapping → Option UrlMapping → Option Tables
insert_row s m none = some (record s { rows = m ∷ s.rows })
insert_row s m (some n) = none

pub find_row-token :
    (ms : List UrlMapping) (t : Text) (m : UrlMapping) → find_row ms t ≡ some m → m.token ≡ t
find_row-token [] t m e = absurd (ground arith)
find_row-token (n ∷ ms) t m e = elim (text_dec n.token t) [
  | yes same ↦ ground (arith, if_pos (text_dec n.token t) same (some n) (find_row ms t))
  | no other ↦
      find_row-token ms t m
        (ground (arith, if_neg (text_dec n.token t) other (some n) (find_row ms t)))
]

pub find-insert_row :
    (s s' : Tables) (m : UrlMapping) (t : Text)
    → insert_row s m (find_row s.rows m.token) ≡ some s'
    → find_row s'.rows t ≡ ite (text_dec m.token t) (some m) (find_row s.rows t)
find-insert_row s s' m t e = elim (Option-cases (find_row s.rows m.token)) [
  | inl free ↦
      let e' : some (record s { rows = m ∷ s.rows }) ≡ some s' = rw free at e in
      let same : record s { rows = m ∷ s.rows } ≡ s' = ground arith in rw (← same) refl
  | inr (n, taken) ↦ absurd (let e' : none ≡ some s' = rw taken at e in ground arith)
]

abbrev pub test_database : Database
test_database = record {
  State = Tables;
  find = λ s t. find_row s.rows t;
  insert = λ s m. insert_row s m (find_row s.rows m.token);
  save = λ s m. record s { rows = m ∷ s.rows };
  scans = λ s. s.events;
  add_all = λ s es. if all_fit es then some (record s { events = s.events ++ es }) else none;
  insert_free = λ s m e. (record s { rows = m ∷ s.rows }, rw e refl);
  insert_taken = λ s m n e. rw e refl;
  find-insert = find-insert_row;
  find-save = λ s m t. refl;
  find_token = λ s t m e. find_row-token s.rows t m e;
  add_all_fits = λ s es h. (record s { events = s.events ++ es }, rw (h, if◌then◌else◌) refl, refl);
  add_all_long = λ s es h. rw (h, if◌then◌else◌) refl;
}

-- Every text names the page `/q` of one host.
abbrev pub test_lib : Urllib
test_lib = record {
  urlparse = λ url. UrlValidator.ok (record {
    scheme = codes "http";
    netloc = codes "A.io";
    rest = codes "/q/";
    hostname = some (codes "a.io");
  });
  geturl = λ p. p.scheme ++ codes ":" ++ (codes "//" ++ p.netloc ++ p.rest);
  geturl_scheme = λ p h. (codes "//" ++ p.netloc ++ p.rest, refl);
}

abbrev pub test_hash : Text → List ℕ
test_hash s = 3 ∷ 250 ∷ 7 ∷ []

abbrev pub row : UrlMapping
row = record {
  token = codes "abc";
  original_url = codes "https://x.io";
  created_at = 5;
  updated_at = 5;
  expires_at = some 900;
  is_deleted = false;
}

abbrev pub empty_store : Store
empty_store = record { held = λ k. none; counts = λ k. 0 }

abbrev pub no_metrics : Metrics
no_metrics = record {
  qr_created = 0;
  redirects_302 = 0;
  redirects_404 = 0;
  redirects_410 = 0;
  cache_hits = 0;
  cache_misses = 0;
}

-- One link, and nothing cached.
abbrev pub one_link : World test_redis test_database
one_link = record {
  db = record { rows = row ∷ []; events = [] };
  redis = some empty_store;
  metrics = no_metrics;
  purged = [];
}

pub row-IsLive : IsLive test_database one_link.db (codes "abc") row
unfolding text_dec
row-IsLive = (refl, refl)

pub accepted :
    validate_url test_lib (codes "http://A.io/q/") ≡ UrlValidator.ok (codes "https://a.io/q")
unfolding validate_url is_blocked_domain rstrip_slash lstrip_slash is_in lower lower_char text_dec
accepted = refl
