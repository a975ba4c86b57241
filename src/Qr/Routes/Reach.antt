-- ===== src/Qr/Routes/Reach.antt =====
-- Every state that the service reaches has a coherent cache.
use sd_practice_qr_code_gene.Base.{ℕ, Option, some, List, ◌≡◌}
use sd_practice_qr_code_gene.Base.Text.{Text}
use sd_practice_qr_code_gene.Qr.UrlValidator.{Urllib}
use sd_practice_qr_code_gene.Qr.Cache.{Client, get_cached_url}
use sd_practice_qr_code_gene.Qr.Service.{Redis, Database, World}
use sd_practice_qr_code_gene.Qr.Routes.{CreateRequest, UpdateRequest}
use sd_practice_qr_code_gene.Qr.Routes.Create.{create_qr}
use sd_practice_qr_code_gene.Qr.Routes.Redirect.{redirect, enqueue_scan_task}
use sd_practice_qr_code_gene.Qr.Routes.Update.{update_qr, delete_qr}
use sd_practice_qr_code_gene.Qr.Routes.Coherence.{IsCoherent-lapse}
use sd_practice_qr_code_gene.Qr.Routes.Keeps.{
  IsSound, redirect-IsSound, scan-IsSound, delete_qr-IsSound,
}
use sd_practice_qr_code_gene.Qr.Routes.Keeps.Updates.{update_qr-IsSound}
use sd_practice_qr_code_gene.Qr.Routes.Keeps.Creates.{create_qr-IsSound}

-- What can happen to the service between two of its states: a request, a background task, or the
-- lapse of cache entries and of counters.
pub data Step (lib : Urllib) (sha256 : Text → List ℕ) (R : Redis) (D : Database)
    : World R D → World R D → Type 0 where
  creates :
      (w : World R D) (forwarded : Option Text) (host : Text) (time : ℕ) (req : CreateRequest)
      (time_ns : ℕ → ℕ) (now : ℕ)
      → Step lib sha256 R D w (create_qr lib sha256 R D w forwarded host time req time_ns now).0
  redirects :
      (w : World R D) (token : Text) (now later : ℕ)
      → Step lib sha256 R D w (redirect R D w token now later).0
  scans :
      (w : World R D) (token : Text) (user_agent host : Option Text) (now : ℕ)
      → Step lib sha256 R D w (enqueue_scan_task R D w token user_agent host now)
  updates :
      (w : World R D) (token : Text) (req : UpdateRequest) (now : ℕ)
      → Step lib sha256 R D w (update_qr lib R D w token req now).0
  deletes :
      (w : World R D) (token : Text) (now : ℕ) → Step lib sha256 R D w (delete_qr R D w token now).0
  lapses :
      (w : World R D) (c : Client R)
      → ((t v : Text) → get_cached_url R c t ≡ some v → get_cached_url R w.redis t ≡ some v)
      → Step lib sha256 R D w (record w { redis = c })

pub data Reach (lib : Urllib) (sha256 : Text → List ℕ) (R : Redis) (D : Database) (w : World R D)
    : World R D → Type 0 where
  here : Reach lib sha256 R D w w
  next :
      {v u : World R D}
      → Reach lib sha256 R D w v
      → Step lib sha256 R D v u
      → Reach lib sha256 R D w u

module _ (lib : Urllib) (sha256 : Text → List ℕ) (R : Redis) (D : Database) where
  Step-IsSound : {w u : World R D} → Step lib sha256 R D w u → IsSound R D w → IsSound R D u
  Step-IsSound (creates w f h t req ns now) v =
      create_qr-IsSound lib sha256 R D w f h t req ns now v
  Step-IsSound (redirects w token now later) v = redirect-IsSound R D w token now later v
  Step-IsSound (scans w token a h now) v = scan-IsSound R D w token a h now v
  Step-IsSound (updates w token req now) v = update_qr-IsSound lib R D w token req now v
  Step-IsSound (deletes w token now) v = delete_qr-IsSound R D w token now v
  Step-IsSound (lapses w c fewer) v = IsCoherent-lapse R D w.db w.redis c fewer v

  -- Whatever the requests, their order and what Redis lets lapse, from a coherent state the
  -- service reaches coherent states only: each cached URL is that of a row not deleted.
  pub Reach-IsSound : {w u : World R D} → Reach lib sha256 R D w u → IsSound R D w → IsSound R D u
  Reach-IsSound here v = v
  Reach-IsSound (next r st) v = Step-IsSound st (Reach-IsSound r v)
