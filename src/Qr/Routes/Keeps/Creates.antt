-- ===== src/Qr/Routes/Keeps/Creates.antt =====
-- Creation keeps the cache coherent.
use sd_practice_qr_code_gene.Base.{if◌then◌else◌}
use sd_practice_qr_code_gene.Base.{
  ℕ, zero, suc, ◌+◌, Option, none, some, List, ◌≡◌, inl, inr, refl, sym, ◌∙◌, arith, Option-cases,
  Bool-cases,
}
use sd_practice_qr_code_gene.Base.Text.{Text}
use sd_practice_qr_code_gene.Qr.Token.{generate_token}
use sd_practice_qr_code_gene.Qr.UrlValidator.{Urllib, validate_url, Result-cases}
use sd_practice_qr_code_gene.Qr.Cache.Urls.{cached-rate}
use sd_practice_qr_code_gene.Qr.Service.{UrlMapping, Redis, Database, World}
use sd_practice_qr_code_gene.Qr.Routes.{CreateRequest, is_refused}
use sd_practice_qr_code_gene.Qr.Routes.Create.{
  rate_limit_create, create_loop, created, new_mapping, create_body, create_qr,
}
use sd_practice_qr_code_gene.Qr.Routes.Coherence.{IsCoherent-lapse, IsCoherent-insert}
use sd_practice_qr_code_gene.Qr.Routes.Keeps.{IsSound}

module _ (sha256 : Text → List ℕ) (D : Database) where
  pub create_loop-some :
      (time_ns : ℕ → ℕ) (db : D.State) (m : UrlMapping) (n i : ℕ) {token : Text} {db' : D.State}
      → create_loop sha256 D time_ns db m n i ≡ some (token, db')
      → D.insert db (record m { token = token }) ≡ some db'
  unfolding create_loop
  create_loop-some time_ns db m zero i h = absurd (cc)
  create_loop-some time_ns db m (suc n) i {token} {db'} h =
      elim (Option-cases
        (D.insert db (record m { token = generate_token sha256 m.original_url (time_ns i) }))) [
          | inl taken ↦ create_loop-some time_ns db m n (i + 1) (ground arith)
          | inr (db'', done) ↦ ground arith
        ]

module _ (lib : Urllib) (sha256 : Text → List ℕ) (R : Redis) (D : Database) where
  created-IsSound :
      (w : World R D) (req : CreateRequest) (url : Text) (now : ℕ) (o : Option (Text × D.State))
      → ((token : Text) (db' : D.State)
          → o ≡ some (token, db')
          → D.insert w.db (record (new_mapping req url now) { token = token }) ≡ some db')
      → IsSound R D w
      → IsSound R D (created R D w req url now o).0
  unfolding created new_mapping
  created-IsSound w req url now none h v = v
  created-IsSound w req url now (some (token, db')) h v =
      IsCoherent-insert R D w.db db' w.redis _ _ (h token db' refl) refl v

  pub create_qr-IsSound :
      (w : World R D) (forwarded : Option Text) (host : Text) (time : ℕ) (req : CreateRequest)
      (time_ns : ℕ → ℕ) (now : ℕ)
      → IsSound R D w
      → IsSound R D (create_qr lib sha256 R D w forwarded host time req time_ns now).0
  unfolding create_qr create_body rate_limit_create
  create_qr-IsSound w forwarded host time req time_ns now v =
      elim (Bool-cases (rate_limit_create R D w forwarded host time).1) [
        | inl allowed ↦ rw allowed (body (rate_limit_create R D w forwarded host time).0 limited)
        | inr refused ↦ rw refused limited
      ]
    where
      limited : IsSound R D (rate_limit_create R D w forwarded host time).0
      limited =
          IsCoherent-lapse R D w.db w.redis _
            (λ t u x. sym (cached-rate R 60 1 w.redis _ time t) ∙ x) v

      body :
          (w' : World R D)
          → IsSound R D w'
          → IsSound R D (create_body lib sha256 R D w' req time_ns now).0
      body w' v' = elim (Result-cases (validate_url lib req.url)) [
        | inl (x, e) ↦ rw (e, create_body) v'
        | inr (url, e) ↦
            rw (e, create_body)
              (elim (Bool-cases (is_refused req.expires_at req.has_zone)) [
                | inl refused ↦ rw (refused, if◌then◌else◌) v'
                | inr taken ↦
                    rw (taken, if◌then◌else◌)
                      (created-IsSound w' req url now _
                        (λ token db'.
                          create_loop-some sha256 D time_ns w'.db (new_mapping req url now) 10 0)
                        v')
              ])
      ]
