-- ===== src/Qr/Routes/Redirect.antt =====
-- `redirect`: Redis, then the negative cache, then the database.
use mathlib.Core.Option
use sd_practice_qr_code_gene.Base.{ℕ, ◌+◌, Option, none, some, [], ◌||◌, if◌then◌else◌}
use sd_practice_qr_code_gene.Base.Text.{Text}
use sd_practice_qr_code_gene.Qr.Cache
use sd_practice_qr_code_gene.Qr.Service.{UrlMapping, Redis, Database, World}
use sd_practice_qr_code_gene.Qr.Routes.{Reply, ok, raise, RedirectResponse, ttl_at, is_expired}

module _ (R : Redis) (D : Database) where
  -- a miss in both caches
  unfoldable pub redirect_row :
      World R D → Text → ℕ → ℕ → Option UrlMapping → World R D × Reply RedirectResponse
  redirect_row w token now later none = (
    record w {
      redis = Cache.set_cached_gone R w.redis token;
      metrics = record (w.metrics) { redirects_404 = w.metrics.redirects_404 + 1 };
    },
    raise 404,
  )
  redirect_row w token now later (some m) =
      if m.is_deleted || is_expired m.expires_at now
      then (
        record w {
          redis = Cache.set_cached_gone R w.redis token;
          metrics = record (w.metrics) { redirects_410 = w.metrics.redirects_410 + 1 };
        },
        raise 410,
      )
      else (
        record w {
          redis = Cache.set_cached_url R w.redis token m.original_url (ttl_at m.expires_at later);
          metrics = record (w.metrics) { redirects_302 = w.metrics.redirects_302 + 1 };
        },
        ok (record { url = m.original_url; scanned = token }),
      )

  unfoldable pub redirect_miss : World R D → Text → ℕ → ℕ → World R D × Reply RedirectResponse
  redirect_miss w token now later =
      if Cache.is_cached_gone R w.redis token
      then (
        record w { metrics = record (w.metrics) { redirects_404 = w.metrics.redirects_404 + 1 } },
        raise 404,
      )
      else redirect_row
          (record w { metrics = record (w.metrics) { cache_misses = w.metrics.cache_misses + 1 } })
          token now later (D.find w.db token)

  -- `now` is the reading of the expiry test, `later` that of the TTL.
  unfoldable pub redirect : World R D → Text → ℕ → ℕ → World R D × Reply RedirectResponse
  redirect w token now later = elim (Cache.get_cached_url R w.redis token) [
    | some url ↦ (
      record w {
        metrics = record (w.metrics) {
          cache_hits = w.metrics.cache_hits + 1;
          redirects_302 = w.metrics.redirects_302 + 1;
        };
      },
      ok (record { url = url; scanned = token }),
    )
    | none ↦ redirect_miss w token now later
  ]

  -- The background task of a redirect.
  unfoldable pub enqueue_scan_task : World R D → Text → Option Text → Option Text → ℕ → World R D
  enqueue_scan_task w token user_agent host now = record w {
    redis = Cache.enqueue_scan R w.redis (record {
      token = token;
      user_agent = Option.get_or user_agent [];
      ip = Option.get_or host [];
      ts = now;
    });
  }
