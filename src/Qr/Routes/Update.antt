-- ===== src/Qr/Routes/Update.antt =====
-- `update_qr` and `delete_qr`.
use sd_practice_qr_code_gene.Base.{
  ℕ, Bool, true, false, Option, none, some, [], ◌∷◌, ◌++◌, not, if◌then◌else◌, ite, ◌&&◌,
  ℕ_discrete,
}
use sd_practice_qr_code_gene.Base.Text.{Text, text_dec}
use sd_practice_qr_code_gene.Qr.UrlValidator
use sd_practice_qr_code_gene.Qr.UrlValidator.{Urllib, validate_url}
use sd_practice_qr_code_gene.Qr.Cache
use sd_practice_qr_code_gene.Qr.Service.{UrlMapping, Redis, Database, World}
use sd_practice_qr_code_gene.Qr.Routes.{
  UpdateRequest, Reply, ok, raise, is_refused, get_mapping_or_404,
}

unfoldable pub expiry_dec : Discrete (Option ℕ)
unfolding ℕ_discrete
expiry_dec = hlevel ℕ_discrete

-- Whether the session holds a change to commit.
unfoldable pub is_dirty : UrlMapping → UrlMapping → Bool
is_dirty m m' = not (
    ite (text_dec m.original_url m'.original_url) true false
    && ite (expiry_dec m.expires_at m'.expires_at) true false)

module _ (R : Redis) (D : Database) where
  -- `if req.expires_at is not None`
  unfoldable pub update_expiry : World R D → UrlMapping → Option ℕ → World R D × UrlMapping
  update_expiry w m none = (w, m)
  update_expiry w m (some t) = (
    record w { redis = Cache.delete_cached_url R w.redis m.token },
    record m { expires_at = some t },
  )

  -- `commit`, with `onupdate` for a changed row, then the purge. A commit that is refused raises,
  -- and leaves the row as it was.
  unfoldable pub commit_update :
      Bool → UrlMapping → ℕ → World R D × UrlMapping → World R D × Reply UrlMapping
  commit_update true m now (w, m') = (w, raise 500)
  commit_update false m now (w, m') =
      let m'' = if is_dirty m m' then record m' { updated_at = now } else m' in
      (record w { db = D.save w.db m''; purged = w.purged ++ m.token ∷ [] }, ok m'')

module _ (lib : Urllib) (R : Redis) (D : Database) where
  -- `if req.url is not None`
  unfoldable pub update_url : World R D → UrlMapping → Option Text → Reply (World R D × UrlMapping)
  update_url w m none = ok (w, m)
  update_url w m (some url) = elim (validate_url lib url) [
    | UrlValidator.raise e ↦ raise 422
    | UrlValidator.ok url' ↦ ok (
      record w { redis = Cache.delete_cached_url R w.redis m.token },
      record m { original_url = url' },
    )
  ]

  unfoldable pub update_row :
      World R D → UpdateRequest → ℕ → Reply UrlMapping → World R D × Reply UrlMapping
  update_row w req now (raise code) = (w, raise code)
  update_row w req now (ok m) = elim (update_url w m req.url) [
    | raise code ↦ (w, raise code)
    | ok (w', m') ↦
        commit_update R D (is_refused req.expires_at req.has_zone) m now
          (update_expiry R D w' m' req.expires_at)
  ]

  unfoldable pub update_qr : World R D → Text → UpdateRequest → ℕ → World R D × Reply UrlMapping
  update_qr w token req now = update_row w req now (get_mapping_or_404 D w.db token)

module _ (R : Redis) (D : Database) where
  unfoldable pub delete_row : World R D → ℕ → Reply UrlMapping → World R D × Reply (Unit {0})
  delete_row w now (raise code) = (w, raise code)
  delete_row w now (ok m) = (
    record w {
      db = D.save w.db (record m { is_deleted = true; updated_at = now });
      redis = Cache.delete_cached_url R w.redis m.token;
      purged = w.purged ++ m.token ∷ [];
    },
    ok tt,
  )

  unfoldable pub delete_qr : World R D → Text → ℕ → World R D × Reply (Unit {0})
  delete_qr w token now = delete_row w now (get_mapping_or_404 D w.db token)
