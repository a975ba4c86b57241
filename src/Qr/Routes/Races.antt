-- ===== src/Qr/Routes/Races.antt =====
-- Two requests at once: a deletion that comes between a redirect's query and its write of the
-- cache.
use sd_practice_qr_code_gene.Base.{ℕ, false, some, ◌∷◌, ◌≡◌, refl, ◌∙◌, ap, arith}
use sd_practice_qr_code_gene.Base.Text.{Text}
use sd_practice_qr_code_gene.Qr.Cache.{set_cached_url, delete_cached_url}
use sd_practice_qr_code_gene.Qr.Cache.Urls.{cached-set_self}
use sd_practice_qr_code_gene.Qr.Service.{UrlMapping, url_key, gone_key, Redis, Database, World}
use sd_practice_qr_code_gene.Qr.Routes.{ok, ttl_at, is_expired, live_row, get_mapping_or_404}
use sd_practice_qr_code_gene.Qr.Routes.Redirect.{redirect_row, redirect}
use sd_practice_qr_code_gene.Qr.Routes.Update.{delete_row, delete_qr}
use sd_practice_qr_code_gene.Qr.Routes.Coherence.{IsLive}
use sd_practice_qr_code_gene.Qr.Routes.Responses.{redirect-hit}

module _ (R : Redis) (D : Database) where
  -- The rest of a redirect that has read the row `m`, after a deletion of the link.
  pub after_race : World R D → Text → ℕ → ℕ → ℕ → UrlMapping → World R D
  after_race w token t now later m =
      (redirect_row R D (delete_qr R D w token t).0 token now later (some m)).0

  redis-delete_qr :
      (w : World R D) (token : Text) (t : ℕ) (m : UrlMapping)
      → IsLive D w.db token m
      → (delete_qr R D w token t).0.redis ≡ delete_cached_url R w.redis m.token
  unfolding delete_qr delete_row get_mapping_or_404 live_row
  redis-delete_qr w token t m (found, live) = rw (found, live) refl

  redirect_row-redis :
      (w : World R D) (token : Text) (now later : ℕ) (m : UrlMapping)
      → m.is_deleted ≡ false
      → is_expired m.expires_at now ≡ false
      → (redirect_row R D w token now later (some m)).0.redis
        ≡ set_cached_url R w.redis token m.original_url (ttl_at m.expires_at later)
  unfolding redirect_row
  redirect_row-redis w token now later m live fresh = ground (arith)

-- While Redis runs, a redirect that read the row of a live link, not expired and with a URL that is
-- not empty, before a deletion of the link caches the URL after that deletion: the next redirect
-- leads to the deleted link's URL.
pub redirect-after_race :
    (R : Redis) (D : Database) (w : World R D) (token : Text) (t now later now' later' : ℕ)
    (m : UrlMapping) (r : R.State) (c : ℕ) (s : Text)
    → w.redis ≡ some r
    → IsLive D w.db token m
    → m.original_url ≡ c ∷ s
    → is_expired m.expires_at now ≡ false
    → (redirect R D (after_race R D w token t now later m) token now' later').1
      ≡ ok (record { url = m.original_url; scanned = token })
unfolding after_race delete_cached_url
redirect-after_race R D w token t now later now' later' m r c s running (found, live) text fresh =
    redirect-hit R D _ token now' later' m.original_url (
      let redis' = R.delete (R.delete r (url_key m.token)) (gone_key m.token) in
      let gone : (delete_qr R D w token t).0.redis ≡ some redis' =
        redis-delete_qr R D w token t m (found, live)
        ∙ ap (λ x. delete_cached_url R x m.token) running in
      rw
        (
          redirect_row-redis R D (delete_qr R D w token t).0 token now later m live fresh,
          gone,
          text,
        )
        (cached-set_self R redis' token c s (ttl_at m.expires_at later)))
