-- ===== src/Qr/Cache.antt =====
-- qr_code_generator/scaffold/app/cache.py, over the Redis interface. Each function takes and
-- returns the client's state; `none` is the client before start-up.
pub mod RateLimit
pub mod Urls
use sd_practice_qr_code_gene.Base.{
  ℕ, ◌+◌, ◌-◌, ◌/◌, Bool, true, false, Option, none, some, [], ◌∷◌, ◌≡◌, leb, ltb, ◌==◌,
  if◌then◌else◌,
}
use sd_practice_qr_code_gene.Base.Int.{ℤ, pos, negsuc}
use sd_practice_qr_code_gene.Base.Text.{Text, codes}
use sd_practice_qr_code_gene.Qr.Service.{Key, url_key, gone_key, rate_key, ScanFields, Redis}

-- 24 h, the fallback when a link has no expiry
abbrev pub default_ttl : ℕ
default_ttl = 86400

-- `ttl if ttl and ttl > 0 else _DEFAULT_TTL`
unfoldable pub ttl_or_default : Option ℤ → ℕ
ttl_or_default none = default_ttl
ttl_or_default (some (negsuc n)) = default_ttl
ttl_or_default (some (pos n)) = if ltb 0 n then n else default_ttl

-- `value.decode() if value else None`: an empty value counts as none.
unfoldable pub decode : Option Text → Option Text
decode none = none
decode (some []) = none
decode (some (c ∷ s)) = some (c ∷ s)

module _ (R : Redis) where
  abbrev pub Client : Type 0
  Client = Option R.State

  unfoldable pub get_cached_url : Client → Text → Option Text
  get_cached_url none token = none
  get_cached_url (some r) token = decode (R.get r (url_key token))

  unfoldable pub set_cached_url : Client → Text → Text → Option ℤ → Client
  set_cached_url none token url ttl = none
  set_cached_url (some r) token url ttl = some (R.set_ex r (url_key token) url (ttl_or_default ttl))

  unfoldable pub delete_cached_url : Client → Text → Client
  delete_cached_url none token = none
  delete_cached_url (some r) token = some (R.delete (R.delete r (url_key token)) (gone_key token))

  -- `exists(key) > 0`
  unfoldable pub is_cached_gone : Client → Text → Bool
  is_cached_gone none token = false
  is_cached_gone (some r) token = elim (R.get r (gone_key token)) [ none ↦ false | some v ↦ true ]

  unfoldable pub set_cached_gone : Client → Text → Client
  set_cached_gone none token = none
  set_cached_gone (some r) token = some (R.set_ex r (gone_key token) (codes "1") 60)

  -- `now` is `int(time.time())`.
  unfoldable pub check_rate_limit : ℕ → ℕ → Client → Text → ℕ → Client × Bool
  check_rate_limit max_requests window none ip now = (none, true)
  check_rate_limit max_requests window (some r) ip now =
      let key = rate_key ip (now / window) in
      let r' = R.incr r key in
      let count = R.count r' key in
      let r'' = if count == 1 then R.expire r' key (window + 1) else r' in
      (some r'', leb count max_requests)

  unfoldable pub enqueue_scan : Client → ScanFields → Client
  enqueue_scan none f = none
  enqueue_scan (some r) f = some (R.xadd r f)
