-- ===== src/Qr/Routes/Keeps/Updates.antt =====
-- Updates keep the cache coherent.
use sd_practice_qr_code_gene.Base.{
  ℕ, Bool, true, false, Option, none, some, ◌≡◌, ◌≢◌, inl, inr, refl, sym, if◌then◌else◌, arith,
}
use sd_practice_qr_code_gene.Base.Text.{Text}
use sd_practice_qr_code_gene.Qr.UrlValidator.{Urllib, validate_url, Result-cases}
use sd_practice_qr_code_gene.Qr.Cache.{Client, get_cached_url, delete_cached_url}
use sd_practice_qr_code_gene.Qr.Cache.Urls.{cached-delete}
use sd_practice_qr_code_gene.Qr.Service.{UrlMapping, Redis, Database, World}
use sd_practice_qr_code_gene.Qr.Routes.{
  Reply-cases, UpdateRequest, Reply, ok, raise, is_refused, get_mapping_or_404,
}
use sd_practice_qr_code_gene.Qr.Routes.Update.{
  update_url, update_expiry, is_dirty, commit_update, update_row, update_qr,
}
use sd_practice_qr_code_gene.Qr.Routes.Coherence.{IsLive, IsCoherent-lapse, IsCoherent-save}
use sd_practice_qr_code_gene.Qr.Routes.Keeps.{IsSound, live_row-ok}

module _ (R : Redis) (D : Database) where
  -- What an update has done to the cache before it commits.
  record Edited (w w' : World R D) (m m' : UrlMapping) : Type 0 where
    same_db : w'.db ≡ w.db
    same_token : m'.token ≡ m.token
    live : m'.is_deleted ≡ m.is_deleted
    fewer :
        (t v : Text) → get_cached_url R w'.redis t ≡ some v → get_cached_url R w.redis t ≡ some v
    own : (v : Text) → get_cached_url R w'.redis m.token ≡ some v → m'.original_url ≡ m.original_url

  fewer-delete :
      (c : Client R) (k t v : Text)
      → get_cached_url R (delete_cached_url R c k) t ≡ some v
      → get_cached_url R c t ≡ some v
  fewer-delete c k t v e = ground (arith, cached-delete R c k t)

  gone-delete : (c : Client R) (k v : Text) → get_cached_url R (delete_cached_url R c k) k ≢ some v
  gone-delete c k v e = ground (arith, cached-delete R c k k)

  update_expiry-Edited :
      (w w' : World R D) (m m' : UrlMapping) (o : Option ℕ)
      → Edited w w' m m'
      → Edited w (update_expiry R D w' m' o).0 m (update_expiry R D w' m' o).1
  unfolding update_expiry
  update_expiry-Edited w w' m m' none d = d
  update_expiry-Edited w w' m m' (some t) d = record {
    same_db = d.same_db;
    same_token = d.same_token;
    live = d.live;
    fewer = λ k v e. d.fewer k v (fewer-delete w'.redis m'.token k v e);
    own = λ v e. absurd (gone-delete w'.redis m'.token v (rw (sym d.same_token) at e));
  }

module _ (lib : Urllib) (R : Redis) (D : Database) where
  -- Whatever `update_url` hands on, if it does not raise.
  abbrev Edits : World R D → UrlMapping → Reply (World R D × UrlMapping) → Type 0
  Edits w m (raise code) = Unit {0}
  Edits w m (ok (w', m')) = Edited R D w w' m m'

  update_url-Edits :
      (w : World R D) (m : UrlMapping) (o : Option Text) → Edits w m (update_url lib R D w m o)
  unfolding update_url
  update_url-Edits w m none = record {
    same_db = refl;
    same_token = refl;
    live = refl;
    fewer = λ t v e. e;
    own = λ v e. refl;
  }
  update_url-Edits w m (some url) = elim (Result-cases (validate_url lib url)) [
    | inl (x, e) ↦ rw (e, update_url) tt
    | inr (u, e) ↦
        rw (e, update_url)
          (record {
            same_db = refl;
            same_token = refl;
            live = refl;
            fewer = λ t v x. fewer-delete R D w.redis m.token t v x;
            own = λ v x. absurd (gone-delete R D w.redis m.token v x);
          })
  ]

  commit_update-IsSound :
      (w : World R D) (token : Text) (refused : Bool) (m : UrlMapping) (now : ℕ)
      (p : World R D × UrlMapping)
      → IsLive D w.db token m
      → Edited R D w p.0 m p.1
      → IsSound R D w
      → IsSound R D (commit_update R D refused m now p).0
  unfolding commit_update
  commit_update-IsSound w token true m now (w', m') live d v =
      rw d.same_db (IsCoherent-lapse R D w.db w.redis w'.redis d.fewer v)
  commit_update-IsSound w token false m now (w', m') (found, live) d v =
      rw d.same_db (IsCoherent-save R D w.db w.redis w'.redis _ alive d.fewer own v)
    where
      m'' : UrlMapping
      m'' = if is_dirty m m' then record m' { updated_at = now } else m'

      alive : m''.is_deleted ≡ false
      alive = ground (arith, d.live)

      here : m''.token ≡ token
      here = ground (arith, d.same_token, D.find_token w.db token m)

      own : (u : Text) → get_cached_url R w'.redis m''.token ≡ some u → m''.original_url ≡ u
      own u e =
          let at_token : get_cached_url R w'.redis token ≡ some u = rw here at e in
          let at_row : get_cached_url R w'.redis m.token ≡ some u =
            rw (D.find_token w.db token m found) at_token in
          let (n, (n_found, _), n_url) = v.entry token u (d.fewer token u at_token) in
          ground (arith, d.own u at_row)

  pub update_qr-IsSound :
      (w : World R D) (token : Text) (req : UpdateRequest) (now : ℕ)
      → IsSound R D w
      → IsSound R D (update_qr lib R D w token req now).0
  unfolding update_qr update_row get_mapping_or_404
  update_qr-IsSound w token req now v = elim (Reply-cases (get_mapping_or_404 D w.db token)) [
    | inl (code, e) ↦ rw (e, update_row) v
    | inr (m, e) ↦
        rw (e, update_row)
          (elim (Reply-cases (update_url lib R D w m req.url)) [
            | inl (code, x) ↦ rw x v
            | inr ((w', m'), x) ↦ rw x (
                commit_update-IsSound w token (is_refused req.expires_at req.has_zone) m now
                  (update_expiry R D w' m' req.expires_at) (live_row-ok (D.find w.db token) m e)
                  (update_expiry-Edited R D w w' m m' req.expires_at
                    (rw x at (update_url-Edits w m req.url)))
                  v)
          ])
  ]
