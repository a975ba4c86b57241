-- ===== src/Qr/Routes/Create.antt =====
-- `create_qr` and its rate limit.
use mathlib.Core.Option
use sd_practice_qr_code_gene.Base.{
  ℕ, zero, suc, ◌+◌, Bool, false, Option, none, some, List, [], ◌∷◌, ◌++◌, ◌||◌, leb, ◌==◌,
  if◌then◌else◌, reverse, ◌&&◌,
}
use sd_practice_qr_code_gene.Base.Text.{Text, codes}
use sd_practice_qr_code_gene.Qr.Token.{generate_token}
use sd_practice_qr_code_gene.Qr.UrlValidator
use sd_practice_qr_code_gene.Qr.UrlValidator.{Urllib, validate_url}
use sd_practice_qr_code_gene.Qr.Cache
use sd_practice_qr_code_gene.Qr.Service.{UrlMapping, Redis, Database, World}
use sd_practice_qr_code_gene.Qr.Routes.{
  base_url, CreateRequest, CreateResponse, Reply, ok, raise, ttl_at, is_refused,
}

-- `header.split(",")[0]`
unfoldable pub before_comma : Text → Text
before_comma [] = []
before_comma (c ∷ s) = let rest = before_comma s in if c == 44 then [] else c ∷ rest

-- The white space of `str.strip`
unfoldable pub is_space : ℕ → Bool
is_space c =
    (leb 9 c && leb c 13)
    || (leb 28 c && leb c 32)
    || (c == 133)
    || (c == 160)
    || (c == 5760)
    || (leb 8192 c && leb c 8202)
    || (leb 8232 c && leb c 8233)
    || (c == 8239)
    || (c == 8287)
    || (c == 12288)

unfoldable pub lstrip : Text → Text
lstrip [] = []
lstrip (c ∷ s) = let rest = lstrip s in if is_space c then rest else c ∷ s

-- The address that the limit is kept for: the first of `X-Forwarded-For`, or the peer's.
unfoldable pub client_ip : Option Text → Text → Text
client_ip forwarded host =
    reverse (lstrip (reverse (lstrip (before_comma (Option.get_or forwarded host)))))

unfoldable pub new_mapping : CreateRequest → Text → ℕ → UrlMapping
new_mapping req url now = record {
  token = [];
  original_url = url;
  created_at = now;
  updated_at = now;
  expires_at = req.expires_at;
  is_deleted = false;
}

module _ (sha256 : Text → List ℕ) (D : Database) where
  -- The `for` loop, with the rounds left and the number of the round: `none` is its `else` branch.
  -- `time_ns` is what the clock reads in each round.
  unfoldable pub create_loop : (ℕ → ℕ) → D.State → UrlMapping → ℕ → ℕ → Option (Text × D.State)
  create_loop time_ns db m zero i = none
  create_loop time_ns db m (suc n) i =
      let token = generate_token sha256 m.original_url (time_ns i) in
      let again = create_loop time_ns db m n (i + 1) in
      elim (D.insert db (record m { token = token })) [
        | some db' ↦ some (token, db')
        | none ↦ again
      ]

module _ (R : Redis) (D : Database) where
  unfoldable pub rate_limit_create : World R D → Option Text → Text → ℕ → World R D × Bool
  rate_limit_create w forwarded host time =
      let (c, allowed) = Cache.check_rate_limit R 60 1 w.redis (client_ip forwarded host) time in
      (record w { redis = c }, allowed)

  -- What follows once a row is committed.
  unfoldable pub created :
      World R D
      → CreateRequest
      → Text
      → ℕ
      → Option (Text × D.State)
      → World R D × Reply CreateResponse
  created w req url now none = (w, raise 500)
  created w req url now (some (token, db')) = (
    record w {
      db = db';
      redis = Cache.set_cached_url R w.redis token url (ttl_at req.expires_at now);
      metrics = record (w.metrics) { qr_created = w.metrics.qr_created + 1 };
    },
    ok (record { token = token; short_url = base_url ++ codes "/r/" ++ token; original_url = url }),
  )

module _ (lib : Urllib) (sha256 : Text → List ℕ) (R : Redis) (D : Database) where
  -- The body of `create_qr`, behind the rate limit.
  unfoldable pub create_body :
      World R D → CreateRequest → (ℕ → ℕ) → ℕ → World R D × Reply CreateResponse
  create_body w req time_ns now = elim (validate_url lib req.url) [
    | UrlValidator.raise e ↦ (w, raise 422)
    | UrlValidator.ok url ↦
        let tried = create_loop sha256 D time_ns w.db (new_mapping req url now) 10 0 in
        -- no `IntegrityError`, and so not caught
        if is_refused req.expires_at req.has_zone
        then (w, raise 500)
        else created R D w req url now tried
  ]

  unfoldable pub create_qr :
      World R D
      → Option Text
      → Text
      → ℕ
      → CreateRequest
      → (ℕ → ℕ)
      → ℕ
      → World R D × Reply CreateResponse
  create_qr w forwarded host time req time_ns now =
      let (w', allowed) = rate_limit_create R D w forwarded host time in
      if allowed then create_body w' req time_ns now else (w', raise 429)
