-- ===== src/Qr/Service.antt =====
-- What the QR-code service stands on: the rows of qr_code_generator/scaffold/app/models.py, the
-- database, Redis and the hash as interfaces, and the state that the handlers share. Times are
-- microseconds. A row's `id` is never read, and is left out.
use sd_practice_qr_code_gene.Base.{
  ℕ, ◌+◌, ◌<◌, Bool, true, false, Option, none, some, List, [], ◌∷◌, ◌++◌, ◌&&◌, leb, length, ite,
  ◌≡◌, ℕ_discrete,
}
use sd_practice_qr_code_gene.Base.Text.{Text, text_dec}

pub record UrlMapping : Type 0 where
  pub token : Text
  pub original_url : Text
  pub created_at : ℕ
  pub updated_at : ℕ
  pub expires_at : Option ℕ
  pub is_deleted : Bool

pub record ScanEvent : Type 0 where
  pub token : Text
  pub scanned_at : ℕ
  pub user_agent : Option Text
  pub ip_address : Option Text

-- The keys `r:{token}`, `gone:{token}` and `ratelimit:create:{ip}:{bucket}`; no two are spelled
-- alike, since a bucket holds no colon.
pub data Key : Type 0 where
  url_key : Text → Key
  gone_key : Text → Key
  rate_key : Text → ℕ → Key

unfoldable pub key_dec : Discrete Key
unfolding text_dec ℕ_discrete
key_dec = hlevel (text_dec, ℕ_discrete)

-- A message of the stream `scan_events`, before it is read.
pub record ScanFields : Type 0 where
  pub token : Text
  pub user_agent : Text
  pub ip : Text
  pub ts : ℕ

-- The Redis commands that the service uses, at one instant. `count` is what a counter holds.
pub record Redis : Type 1 where
  pub State : Type 0
  pub get : State → Key → Option Text
  pub count : State → Key → ℕ
  pub set_ex : State → Key → Text → ℕ → State
  pub delete : State → Key → State
  pub incr : State → Key → State
  pub expire : State → Key → ℕ → State
  pub xadd : State → ScanFields → State
  -- `SET … EX` takes a positive time only
  pub get-set_ex :
      (s : State) (k j : Key) (v : Text) (ex : ℕ)
      → 0 < ex
      → get (set_ex s k v ex) j ≡ ite (key_dec k j) (some v) (get s j)
  pub get-delete : (s : State) (k j : Key) → get (delete s k) j ≡ ite (key_dec k j) none (get s j)
  pub count-incr :
      (s : State) (k j : Key) → count (incr s k) j ≡ ite (key_dec k j) (count s j + 1) (count s j)
  pub count-expire : (s : State) (k j : Key) (t : ℕ) → 0 < t → count (expire s k t) j ≡ count s j
  pub get-incr :
      (s : State) (t : Text) (k : Text) (n : ℕ)
      → get (incr s (rate_key k n)) (url_key t) ≡ get s (url_key t)
  pub get-expire : (s : State) (k j : Key) (t : ℕ) → 0 < t → get (expire s k t) j ≡ get s j
  pub get-xadd : (s : State) (f : ScanFields) (k : Key) → get (xadd s f) k ≡ get s k

-- Whether a text fits its column, which may hold none.
unfoldable pub fits_in : ℕ → Option Text → Bool
fits_in n none = true
fits_in n (some s) = leb (length s) n

-- The columns `String(8)`, `String(500)` and `String(45)`
unfoldable pub fits : ScanEvent → Bool
fits e = leb (length e.token) 8 && fits_in 500 e.user_agent && fits_in 45 e.ip_address

unfoldable pub all_fit : List ScanEvent → Bool
all_fit [] = true
all_fit (e ∷ es) = let rest = all_fit es in fits e && rest

-- The tables, through committed sessions. `insert` is refused (`IntegrityError`) exactly when the
-- token is taken, and the commit of `add_all` raises, and stores nothing, exactly when a text is too
-- long for its column.
pub record Database : Type 1 where
  pub State : Type 0
  pub find : State → Text → Option UrlMapping
  pub insert : State → UrlMapping → Option State
  pub save : State → UrlMapping → State
  pub scans : State → List ScanEvent
  pub add_all : State → List ScanEvent → Option State
  pub insert_free :
      (s : State) (m : UrlMapping) → find s m.token ≡ none → (s' : State) × (insert s m ≡ some s')
  pub insert_taken : (s : State) (m n : UrlMapping) → find s m.token ≡ some n → insert s m ≡ none
  pub find-insert :
      (s s' : State) (m : UrlMapping) (t : Text)
      → insert s m ≡ some s'
      → find s' t ≡ ite (text_dec m.token t) (some m) (find s t)
  pub find-save :
      (s : State) (m : UrlMapping) (t : Text)
      → find (save s m) t ≡ ite (text_dec m.token t) (some m) (find s t)
  pub find_token : (s : State) (t : Text) (m : UrlMapping) → find s t ≡ some m → m.token ≡ t
  pub add_all_fits :
      (s : State) (es : List ScanEvent)
      → all_fit es ≡ true
      → (s' : State) × (add_all s es ≡ some s') × (scans s' ≡ scans s ++ es)
  pub add_all_long : (s : State) (es : List ScanEvent) → all_fit es ≡ false → add_all s es ≡ none

-- qr_code_generator/scaffold/app/metrics.py
pub record Metrics : Type 0 where
  pub qr_created : ℕ
  pub redirects_302 : ℕ
  pub redirects_404 : ℕ
  pub redirects_410 : ℕ
  pub cache_hits : ℕ
  pub cache_misses : ℕ

-- `redis` is `none` until the application has started; `purged` holds the tokens for which a
-- PURGE request was sent to Varnish.
pub record World (R : Redis) (D : Database) : Type 0 where
  pub db : D.State
  pub redis : Option R.State
  pub metrics : Metrics
  pub purged : List Text
