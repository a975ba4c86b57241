-- ===== src/Qr/Routes.antt =====
-- qr_code_generator/scaffold/app/routes.py and schemas.py: what the handlers share, and a child for
-- each group of them. A handler takes the shared state and returns it with its response; each
-- reading of the clock is an argument of its own.
pub mod Create
pub mod Redirect
pub mod Update
pub mod Analytics
pub mod Coherence
pub mod Keeps
pub mod Responses
pub mod Changes
pub mod Reach
pub mod Races
use mathlib.Core.Option
use sd_practice_qr_code_gene.Base.{
  ◌≡◌, ◌⊎◌, inl, inr, refl, ℕ, zero, suc, ◌+◌, ◌-◌, ◌/◌, Bool, true, false, Option, none, some,
  List, [], ◌∷◌, ◌++◌, ◌||◌, not, leb, ltb, ◌==◌, if◌then◌else◌, length, ite, reverse, ◌&&◌,
  ℕ_discrete,
}
use sd_practice_qr_code_gene.Base.Int.{ℤ, seconds_until}
use sd_practice_qr_code_gene.Base.Text.{Text, codes, text_dec}
use sd_practice_qr_code_gene.Qr.Token.{generate_token}
use sd_practice_qr_code_gene.Qr.UrlValidator
use sd_practice_qr_code_gene.Qr.UrlValidator.{Urllib, validate_url}
use sd_practice_qr_code_gene.Qr.Cache
use sd_practice_qr_code_gene.Qr.Service.{
  UrlMapping, ScanEvent, ScanFields, Redis, Database, Metrics, World,
}

abbrev pub base_url : Text
base_url = codes "http://localhost:8100"

-- `has_zone` is whether the expiry of a request, if it has one, comes with a time zone.
pub record CreateRequest : Type 0 where
  pub url : Text
  pub expires_at : Option ℕ
  pub has_zone : Bool

pub record CreateResponse : Type 0 where
  pub token : Text
  pub short_url : Text
  pub original_url : Text

pub record UpdateRequest : Type 0 where
  pub url : Option Text
  pub expires_at : Option ℕ
  pub has_zone : Bool

-- Whether a commit of the expiry raises: the columns are without a time zone, and the driver does not
-- take a value that has one.
unfoldable pub is_refused : Option ℕ → Bool → Bool
is_refused none has_zone = false
is_refused (some t) has_zone = has_zone

-- `HTTPException`, by its status code.
pub data Reply {ℓ} (A : Type ℓ) : Type ℓ where
  ok : A → Reply A
  raise : ℕ → Reply A

pub Reply-cases {ℓ} :
    {A : Type ℓ} (r : Reply A) → ((code : ℕ) × (r ≡ raise code)) ⊎ ((a : A) × (r ≡ ok a))
Reply-cases (ok a) = inr (a, refl)
Reply-cases (raise code) = inl (code, refl)

-- What a redirect answers, with the scan that its background task enqueues.
pub record RedirectResponse : Type 0 where
  pub url : Text
  pub scanned : Text

pub record AnalyticsResponse : Type 0 where
  pub token : Text
  pub total_scans : ℕ
  pub scans_by_day : List (ℕ × ℕ)

-- `int((expires_at - now).total_seconds())`, if there is an expiry
unfoldable pub ttl_at : Option ℕ → ℕ → Option ℤ
ttl_at none now = none
ttl_at (some expires_at) now = some (seconds_until expires_at now)

-- `mapping.expires_at and mapping.expires_at < now`
unfoldable pub is_expired : Option ℕ → ℕ → Bool
is_expired none now = false
is_expired (some expires_at) now = ltb expires_at now

unfoldable pub live_row : Option UrlMapping → Reply UrlMapping
live_row none = raise 404
live_row (some m) = if m.is_deleted then raise 404 else ok m

module _ (D : Database) where
  unfoldable pub get_mapping_or_404 : D.State → Text → Reply UrlMapping
  get_mapping_or_404 db token = live_row (D.find db token)

  -- `replica` is the state of the database that reads go to.
  unfoldable pub get_qr_info : D.State → Text → Reply UrlMapping
  get_qr_info replica token = get_mapping_or_404 replica token
