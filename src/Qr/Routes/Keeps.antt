-- ===== src/Qr/Routes/Keeps.antt =====
-- Every handler keeps the cache coherent.
pub mod Updates
pub mod Creates
use sd_practice_qr_code_gene.Base.{
  ℕ, zero, suc, ◌+◌, false, Option, none, some, List, ◌≡◌, ◌≢◌, inl, inr, refl, sym, ◌∙◌,
  if◌then◌else◌, arith, Option-cases, Bool-cases, ◌||◌,
}
use sd_practice_qr_code_gene.Base.Text.{Text}
use sd_practice_qr_code_gene.Qr.Token.{generate_token}
use sd_practice_qr_code_gene.Qr.UrlValidator.{Urllib, validate_url, Result-cases}
use sd_practice_qr_code_gene.Qr.Cache.{Client, get_cached_url, delete_cached_url, is_cached_gone}
use sd_practice_qr_code_gene.Qr.Cache.Urls.{cached-gone, cached-delete, cached-rate, cached-scan}
use sd_practice_qr_code_gene.Qr.Service.{UrlMapping, Redis, Database, World}
use sd_practice_qr_code_gene.Qr.Routes.{
  Reply-cases, CreateRequest, UpdateRequest, Reply, ok, raise, is_expired, live_row,
  get_mapping_or_404,
}
use sd_practice_qr_code_gene.Qr.Routes.Create.{
  rate_limit_create, create_loop, created, new_mapping, create_body, create_qr,
}
use sd_practice_qr_code_gene.Qr.Routes.Redirect.{
  redirect_row, redirect_miss, redirect, enqueue_scan_task,
}
use sd_practice_qr_code_gene.Qr.Routes.Update.{
  update_url, update_expiry, is_dirty, commit_update, update_row, update_qr, delete_row, delete_qr,
}
use sd_practice_qr_code_gene.Qr.Routes.Coherence.{
  IsLive, IsCoherent, IsCoherent-lapse, IsCoherent-cache_live, IsCoherent-insert, IsCoherent-save,
  IsCoherent-delete,
}

-- What `_get_mapping_or_404` lets through.
pub live_row-ok :
    (o : Option UrlMapping) (m : UrlMapping)
    → live_row o ≡ ok m
    → (o ≡ some m) × (m.is_deleted ≡ false)
unfolding live_row
live_row-ok none m h = absurd (cc)
live_row-ok (some n) m h = ground arith

abbrev pub IsSound : (R : Redis) (D : Database) → World R D → Type 0
IsSound R D w = IsCoherent R D w.db w.redis

module _ (R : Redis) (D : Database) where
  redirect_row-IsSound :
      (w : World R D) (token : Text) (now later : ℕ) (o : Option UrlMapping)
      → D.find w.db token ≡ o
      → IsSound R D w
      → IsSound R D (redirect_row R D w token now later o).0
  unfolding redirect_row
  redirect_row-IsSound w token now later none e v =
      IsCoherent-lapse R D w.db w.redis _ (λ t u x. sym (cached-gone R w.redis token t) ∙ x) v
  redirect_row-IsSound w token now later (some m) e v =
      elim (Bool-cases (m.is_deleted || is_expired m.expires_at now)) [
        | inl dead ↦ rw dead (
            IsCoherent-lapse R D w.db w.redis _ (λ t u x. sym (cached-gone R w.redis token t) ∙ x)
              v)
        | inr fine ↦ rw fine (IsCoherent-cache_live R D w.db w.redis m token _ (e, ground arith) v)
      ]

  pub redirect-IsSound :
      (w : World R D) (token : Text) (now later : ℕ)
      → IsSound R D w
      → IsSound R D (redirect R D w token now later).0
  unfolding redirect redirect_miss
  redirect-IsSound w token now later v = elim (Option-cases (get_cached_url R w.redis token)) [
    | inr (u, hit) ↦ rw (hit, redirect) v
    | inl miss ↦
        rw (miss, redirect)
          (elim (Bool-cases (is_cached_gone R w.redis token)) [
            | inl gone ↦ rw gone v
            | inr other ↦ rw other (redirect_row-IsSound _ token now later _ refl v)
          ])
  ]

  pub scan-IsSound :
      (w : World R D) (token : Text) (user_agent host : Option Text) (now : ℕ)
      → IsSound R D w
      → IsSound R D (enqueue_scan_task R D w token user_agent host now)
  unfolding enqueue_scan_task
  scan-IsSound w token user_agent host now v =
      IsCoherent-lapse R D w.db w.redis _ (λ t u x. sym (cached-scan R w.redis _ t) ∙ x) v

  delete_row-IsSound :
      (w : World R D) (now : ℕ) (r : Reply UrlMapping)
      → IsSound R D w
      → IsSound R D (delete_row R D w now r).0
  unfolding delete_row
  delete_row-IsSound w now (raise code) v = v
  delete_row-IsSound w now (ok m) v = IsCoherent-delete R D w.db w.redis _ v

  pub delete_qr-IsSound :
      (w : World R D) (token : Text) (now : ℕ)
      → IsSound R D w
      → IsSound R D (delete_qr R D w token now).0
  unfolding delete_qr
  delete_qr-IsSound w token now v = delete_row-IsSound w now _ v
