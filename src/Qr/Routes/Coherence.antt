-- ===== src/Qr/Routes/Coherence.antt =====
-- The cache of URLs never disagrees with the database, whatever the handlers do one after another
-- and whatever Redis lets lapse.
use sd_practice_qr_code_gene.Base.{false, Option, some, ◌≡◌, inl, inr, sym, arith}
use sd_practice_qr_code_gene.Base.Int.{ℤ}
use sd_practice_qr_code_gene.Base.Text.{Text, text_dec}
use sd_practice_qr_code_gene.Qr.Cache.{Client, get_cached_url, set_cached_url, delete_cached_url}
use sd_practice_qr_code_gene.Qr.Cache.Urls.{cached-set, cached-delete}
use sd_practice_qr_code_gene.Qr.Service.{UrlMapping, Redis, Database}

-- The row that a token stands for, while the link is live.
abbrev pub IsLive : (D : Database) → D.State → Text → UrlMapping → Type 0
IsLive D db token m = (D.find db token ≡ some m) × (m.is_deleted ≡ false)

-- Each cached URL is that of a live row.
pub record IsCoherent (R : Redis) (D : Database) (db : D.State) (c : Client R) : Type 0 where
  pub entry :
      (token url : Text)
      → get_cached_url R c token ≡ some url
      → (m : UrlMapping) × IsLive D db token m × (m.original_url ≡ url)

module _ (R : Redis) (D : Database) where
  -- Fewer entries are as good.
  pub IsCoherent-lapse :
      (db : D.State) (c c' : Client R)
      → ((t v : Text) → get_cached_url R c' t ≡ some v → get_cached_url R c t ≡ some v)
      → IsCoherent R D db c
      → IsCoherent R D db c'
  IsCoherent-lapse db c c' fewer v = record { entry = λ t u e. v.entry t u (fewer t u e) }

  pub IsCoherent-cache_live :
      (db : D.State) (c : Client R) (m : UrlMapping) (token : Text) (ttl : Option ℤ)
      → IsLive D db token m
      → IsCoherent R D db c
      → IsCoherent R D db (set_cached_url R c token m.original_url ttl)
  IsCoherent-cache_live db c m token ttl live v = record {
    entry = λ t u e. elim (cached-set R c token m.original_url ttl t u e) [
      | inl (here, same) ↦ rw (← here) (m, live, sym same)
      | inr (_, old) ↦ v.entry t u old
    ];
  }

  -- A new row, with its URL in the cache.
  pub IsCoherent-insert :
      (db db' : D.State) (c : Client R) (m : UrlMapping) (ttl : Option ℤ)
      → D.insert db m ≡ some db'
      → m.is_deleted ≡ false
      → IsCoherent R D db c
      → IsCoherent R D db' (set_cached_url R c m.token m.original_url ttl)
  IsCoherent-insert db db' c m ttl done live v = record {
    entry = λ t u e. elim (cached-set R c m.token m.original_url ttl t u e) [
      | inl (here, same) ↦ (m, (ground (arith, D.find-insert db db' m t), live), sym same)
      | inr (other, old) ↦
          let (n, (found, n_live), n_url) = v.entry t u old in
          (n, (ground (arith, D.find-insert db db' m t), n_live), n_url)
    ];
  }

  -- A changed row, if its token is no longer cached, or still is under the row's URL.
  pub IsCoherent-save :
      (db : D.State) (c c' : Client R) (m : UrlMapping)
      → m.is_deleted ≡ false
      → ((t v : Text) → get_cached_url R c' t ≡ some v → get_cached_url R c t ≡ some v)
      → ((v : Text) → get_cached_url R c' m.token ≡ some v → m.original_url ≡ v)
      → IsCoherent R D db c
      → IsCoherent R D (D.save db m) c'
  IsCoherent-save db c c' m live fewer own v = record {
    entry = λ t u e. elim (text_dec m.token t) [
      | yes here ↦ (m, (ground (arith, D.find-save db m t), live), own u (rw here e))
      | no other ↦
          let (n, (found, n_live), n_url) = v.entry t u (fewer t u e) in
          (n, (ground (arith, D.find-save db m t), n_live), n_url)
    ];
  }

  -- A row that is marked deleted, once its token is out of the cache.
  pub IsCoherent-delete :
      (db : D.State) (c : Client R) (m : UrlMapping)
      → IsCoherent R D db c
      → IsCoherent R D (D.save db m) (delete_cached_url R c m.token)
  IsCoherent-delete db c m v = record {
    entry = λ t u e. elim (text_dec m.token t) [
      | yes here ↦ absurd (ground (arith, cached-delete R c m.token t))
      | no other ↦
          let (n, (found, n_live), n_url) =
            v.entry t u (ground (arith, cached-delete R c m.token t)) in
          (n, (ground (arith, D.find-save db m t), n_live), n_url)
    ];
  }
