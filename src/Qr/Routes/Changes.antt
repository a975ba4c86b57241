-- ===== src/Qr/Routes/Changes.antt =====
-- A redirect right after a link was created or changed.
use sd_practice_qr_code_gene.Base.{
  ℕ, true, false, Bool-cases, ap, Option, none, some, List, ◌∷◌, ◌++◌, ◌≡◌, inl, inr, refl, ◌∙◌,
  if◌then◌else◌, arith, if_pos,
}
use sd_practice_qr_code_gene.Base.Text.{Text, text_dec, codes}
use sd_practice_qr_code_gene.Qr.UrlValidator
use sd_practice_qr_code_gene.Qr.UrlValidator.{Urllib, validate_url, Result-cases}
use sd_practice_qr_code_gene.Qr.UrlValidator.Accepted.{validate_url-ok}
use sd_practice_qr_code_gene.Qr.Cache.{Client, get_cached_url, delete_cached_url, is_cached_gone}
use sd_practice_qr_code_gene.Qr.Cache.Urls.{cached-delete, cached-set_self, gone-delete_self}
use sd_practice_qr_code_gene.Qr.Service.{UrlMapping, Redis, Database, World}
use sd_practice_qr_code_gene.Qr.Routes.{
  CreateRequest, CreateResponse, UpdateRequest, ok, raise, ttl_at, is_refused, is_expired, live_row,
  get_mapping_or_404,
}
use sd_practice_qr_code_gene.Qr.Routes.Create.{create_loop, created, new_mapping, create_body}
use sd_practice_qr_code_gene.Qr.Routes.Redirect.{redirect}
use sd_practice_qr_code_gene.Qr.Routes.Update.{
  update_url, update_expiry, is_dirty, commit_update, update_row, update_qr,
}
use sd_practice_qr_code_gene.Qr.Routes.Coherence.{IsLive}
use sd_practice_qr_code_gene.Qr.Routes.Responses.{row_reply, redirect-hit, redirect-row}

created-cached :
    (R : Redis) (D : Database) (w : World R D) (req : CreateRequest) (c : ℕ) (s : Text) (t : ℕ)
    (r : R.State) (o : Option (Text × D.State)) (resp : CreateResponse)
    → w.redis ≡ some r
    → (created R D w req (c ∷ s) t o).1 ≡ ok resp
    → (get_cached_url R (created R D w req (c ∷ s) t o).0.redis resp.token ≡ some (c ∷ s))
      × (resp.original_url ≡ c ∷ s)
unfolding created
created-cached R D w req c s t r none resp e h = absurd (cc)
created-cached R D w req c s t r (some (token, db')) resp e h =
    (rw e (ground (arith, cached-set_self R r token c s (ttl_at req.expires_at t))), ground arith)

created-redirect :
    (R : Redis) (D : Database) (w : World R D) (req : CreateRequest) (url : Text) (c : ℕ) (s : Text)
    (t now later : ℕ) (r : R.State) (o : Option (Text × D.State)) (resp : CreateResponse)
    → url ≡ c ∷ s
    → w.redis ≡ some r
    → (created R D w req url t o).1 ≡ ok resp
    → (redirect R D (created R D w req url t o).0 resp.token now later).1
      ≡ ok (record { url = resp.original_url; scanned = resp.token })
created-redirect R D w req url c s t now later r o resp text running h =
    let h' : (created R D w req (c ∷ s) t o).1 ≡ ok resp = rw (← text) h in
    let (hit, same) = created-cached R D w req c s t r o resp running h' in
    rw (text, same) (redirect-hit R D _ resp.token now later (c ∷ s) hit)

raise-ok : (code : ℕ) (resp : CreateResponse) → ¬ (raise code ≡ ok resp)
raise-ok code resp e = ground arith

-- While Redis runs, a link that was just created redirects to its URL. Its expiry plays no part,
-- so this also holds for a link that was created with an expiry in the past.
pub create-redirect :
    (lib : Urllib) (sha256 : Text → List ℕ) (R : Redis) (D : Database) (w : World R D)
    (req : CreateRequest) (time_ns : ℕ → ℕ) (t now later : ℕ) (r : R.State) (resp : CreateResponse)
    → w.redis ≡ some r
    → (create_body lib sha256 R D w req time_ns t).1 ≡ ok resp
    → (redirect R D (create_body lib sha256 R D w req time_ns t).0 resp.token now later).1
      ≡ ok (record { url = resp.original_url; scanned = resp.token })
unfolding create_body
create-redirect lib sha256 R D w req time_ns t now later r resp running h =
    elim (Result-cases (validate_url lib req.url)) [
      | inl (x, e) ↦ absurd (ground arith)
      | inr (url, e) ↦
          let (_, (s, https), _, _) = validate_url-ok lib req.url e in
          elim (Bool-cases (is_refused req.expires_at req.has_zone)) [
            | inl refused ↦ absurd (raise-ok 500 resp (rw (e, refused, create_body) at h))
            | inr taken ↦
                rw (e, taken, create_body)
                  (created-redirect R D w req url 104 (codes "ttps:" ++ s) t now later r
                    (create_loop sha256 D time_ns w.db (new_mapping req url t) 10 0) resp https
                    running (rw (e, taken, create_body) at h))
          ]
    ]

-- The expiry of a row after an update.
abbrev new_expiry : Option ℕ → Option ℕ → Option ℕ
new_expiry none old = old
new_expiry (some t) old = some t

-- What an update does before it commits: the token is out of both caches.
record IsEdited (R : Redis) (D : Database) (w : World R D) (m : UrlMapping) (url : Text)
    (expiry : Option ℕ) (p : World R D × UrlMapping) : Type 0 where
  same_db : p.0.db ≡ w.db
  no_url : get_cached_url R p.0.redis m.token ≡ none
  no_gone : is_cached_gone R p.0.redis m.token ≡ false
  same_token : p.1.token ≡ m.token
  live : p.1.is_deleted ≡ m.is_deleted
  new_url : p.1.original_url ≡ url
  new_expires : p.1.expires_at ≡ expiry

module _ (R : Redis) (D : Database) where
  no_url-delete : (c : Client R) (k : Text) → get_cached_url R (delete_cached_url R c k) k ≡ none
  no_url-delete c k = cached-delete R c k k ∙ if_pos (text_dec k k) refl _ _

  update-IsEdited :
      (w : World R D) (m : UrlMapping) (url : Text) (o : Option ℕ)
      → IsEdited R D w m url (new_expiry o m.expires_at) (
          update_expiry R D
            (record w { redis = delete_cached_url R w.redis m.token })
            (record m { original_url = url })
            o)
  unfolding update_expiry
  update-IsEdited w m url none = record {
    same_db = refl;
    no_url = no_url-delete w.redis m.token;
    no_gone = gone-delete_self R w.redis m.token;
    same_token = refl;
    live = refl;
    new_url = refl;
    new_expires = refl;
  }
  update-IsEdited w m url (some t) = record {
    same_db = refl;
    no_url = no_url-delete (delete_cached_url R w.redis m.token) m.token;
    no_gone = gone-delete_self R (delete_cached_url R w.redis m.token) m.token;
    same_token = refl;
    live = refl;
    new_url = refl;
    new_expires = refl;
  }

  committed-redirect :
      (w : World R D) (m : UrlMapping) (url : Text) (expiry : Option ℕ) (p : World R D × UrlMapping)
      (t now later : ℕ)
      → m.is_deleted ≡ false
      → IsEdited R D w m url expiry p
      → (redirect R D (commit_update R D false m t p).0 m.token now later).1 ≡ (
          if is_expired expiry now then raise 410 else ok (record { url = url; scanned = m.token }))
  unfolding commit_update
  committed-redirect w m url expiry (w', m') t now later alive d =
      redirect-row R D _ m.token now later m'' d.no_url d.no_gone
        (ground (arith, D.find-save w'.db m'' m.token, d.same_token))
      ∙ reply
    where
      m'' : UrlMapping
      m'' = if is_dirty m m' then record m' { updated_at = t } else m'

      reply : row_reply R D m.token now (some m'') ≡ (
          if is_expired expiry now then raise 410 else ok (record { url = url; scanned = m.token }))
      reply = unfold row_reply in ground (arith, d.live, d.new_url, d.new_expires)

-- The row that the next redirect finds, by whether the commit is refused.
refused-redirect :
    (R : Redis) (D : Database) (w : World R D) (m : UrlMapping) (url : Text) (expiry : Option ℕ)
    (p : World R D × UrlMapping) (t now later : ℕ)
    → D.find w.db m.token ≡ some m
    → m.is_deleted ≡ false
    → IsEdited R D w m url expiry p
    → (redirect R D (commit_update R D true m t p).0 m.token now later).1 ≡ (
        if is_expired m.expires_at now
        then raise 410
        else ok (record { url = m.original_url; scanned = m.token }))
unfolding commit_update
refused-redirect R D w m url expiry (w', m') t now later found alive d =
    redirect-row R D w' m.token now later m d.no_url d.no_gone
      (ap (λ db. D.find db m.token) d.same_db ∙ found)
    ∙ reply
  where
    reply : row_reply R D m.token now (some m) ≡ (
        if is_expired m.expires_at now
        then raise 410
        else ok (record { url = m.original_url; scanned = m.token }))
    reply = unfold row_reply in ground (arith, alive)

update_qr-edited :
    (lib : Urllib) (R : Redis) (D : Database) (w : World R D) (token : Text) (req : UpdateRequest)
    (m : UrlMapping) (url url' : Text) (t : ℕ)
    → D.find w.db token ≡ some m
    → m.is_deleted ≡ false
    → req.url ≡ some url
    → validate_url lib url ≡ UrlValidator.ok url'
    → update_qr lib R D w token req t
      ≡ commit_update R D (is_refused req.expires_at req.has_zone) m t (
          update_expiry R D
            (record w { redis = delete_cached_url R w.redis m.token })
            (record m { original_url = url' })
            req.expires_at)
unfolding update_qr update_row update_url get_mapping_or_404 live_row
update_qr-edited lib R D w token req m url url' t found live asked accepted =
    rw (found, live) (ground arith)

-- After an update with an accepted URL, where no other request comes between: if the commit is
-- refused, as that of an expiry with a time zone is, the next redirect leads to the old URL, or
-- answers 410 if the old expiry has passed by then; otherwise it leads to the new URL, or answers 410
-- if the row's expiry, the new one or else the old one, has passed.
pub update-redirect :
    (lib : Urllib) (R : Redis) (D : Database) (w : World R D) (token : Text) (req : UpdateRequest)
    (m : UrlMapping) (url url' : Text) (t now later : ℕ)
    → IsLive D w.db token m
    → req.url ≡ some url
    → validate_url lib url ≡ UrlValidator.ok url'
    → (redirect R D (update_qr lib R D w token req t).0 token now later).1 ≡ (
        if is_refused req.expires_at req.has_zone
        then (if is_expired m.expires_at now
            then raise 410
            else ok (record { url = m.original_url; scanned = token }))
        else (if is_expired (new_expiry req.expires_at m.expires_at) now
            then raise 410
            else ok (record { url = url'; scanned = token })))
update-redirect lib R D w token req m url url' t now later (found, live) asked accepted =
    let row_found : D.find w.db m.token ≡ some m =
      ap (D.find w.db) (D.find_token w.db token m found) ∙ found in
    let edited = update-IsEdited R D w m url' req.expires_at in
    let p =
      update_expiry R D (record w { redis = delete_cached_url R w.redis m.token })
        (record m { original_url = url' }) req.expires_at in
    let expiry = new_expiry req.expires_at m.expires_at in
    rw
      (
        update_qr-edited lib R D w token req m url url' t found live asked accepted,
        ← D.find_token w.db token m found,
      )
      (elim (Bool-cases (is_refused req.expires_at req.has_zone)) [
        | inl refused ↦
            rw (refused, if◌then◌else◌)
              (refused-redirect R D w m url' expiry p t now later row_found live edited)
        | inr taken ↦
            rw (taken, if◌then◌else◌)
              (committed-redirect R D w m url' expiry p t now later live edited)
      ])
