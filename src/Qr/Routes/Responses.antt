-- ===== src/Qr/Routes/Responses.antt =====
-- What clients are told: redirects after the other requests, and the tokens of `create_qr`.
use sd_practice_qr_code_gene.Base.{
  ℕ, zero, suc, ◌+◌, ◌≤◌, ◌<◌, true, false, Option, none, some, List, [], ◌∷◌, ◌++◌, ◌≡◌, ◌≢◌, inl,
  inr, refl, sym, ◌∙◌, if◌then◌else◌, arith, Option-cases, Bool-cases, ◌||◌, if_pos, ℕ_discrete,
}
use sd_practice_qr_code_gene.Base.Text.{Text, text_dec}
use sd_practice_qr_code_gene.Qr.Token.{generate_token}
use sd_practice_qr_code_gene.Qr.Cache.{get_cached_url, delete_cached_url, is_cached_gone}
use sd_practice_qr_code_gene.Qr.Cache.Urls.{cached-delete, gone-delete_self}
use sd_practice_qr_code_gene.Qr.Service.{UrlMapping, Redis, Database, World}
use sd_practice_qr_code_gene.Qr.Routes.{
  Reply, ok, raise, RedirectResponse, is_expired, live_row, get_mapping_or_404,
}
use sd_practice_qr_code_gene.Qr.Routes.Create.{create_loop}
use sd_practice_qr_code_gene.Qr.Routes.Redirect.{redirect_row, redirect_miss, redirect}
use sd_practice_qr_code_gene.Qr.Routes.Update.{delete_row, delete_qr}
use sd_practice_qr_code_gene.Qr.Routes.Coherence.{IsLive}
use sd_practice_qr_code_gene.Qr.Routes.Keeps.{IsSound}

module _ (R : Redis) (D : Database) where
  pub redirect-hit :
      (w : World R D) (token : Text) (now later : ℕ) (url : Text)
      → get_cached_url R w.redis token ≡ some url
      → (redirect R D w token now later).1 ≡ ok (record { url = url; scanned = token })
  unfolding redirect
  redirect-hit w token now later url e = rw (e, redirect)

  -- The answer for a row, once the caches have missed.
  unfoldable pub row_reply : Text → ℕ → Option UrlMapping → Reply RedirectResponse
  row_reply token now none = raise 404
  row_reply token now (some m) =
      if m.is_deleted || is_expired m.expires_at now
      then raise 410
      else ok (record { url = m.original_url; scanned = token })

  redirect_row-reply :
      (w : World R D) (token : Text) (now later : ℕ) (o : Option UrlMapping)
      → (redirect_row R D w token now later o).1 ≡ row_reply token now o
  unfolding redirect_row row_reply
  redirect_row-reply w token now later none = refl
  redirect_row-reply w token now later (some m) = ground arith

  pub redirect-miss :
      (w : World R D) (token : Text) (now later : ℕ)
      → get_cached_url R w.redis token ≡ none
      → (redirect R D w token now later).1 ≡ (
          if is_cached_gone R w.redis token
          then raise 404
          else row_reply token now (D.find w.db token))
  unfolding redirect redirect_miss
  redirect-miss w token now later e =
      rw (e, redirect)
        (elim (Bool-cases (is_cached_gone R w.redis token)) [
          | inl gone ↦ rw gone
          | inr other ↦ rw other (redirect_row-reply _ token now later (D.find w.db token))
        ])

  row_reply-ok :
      (token : Text) (now : ℕ) (o : Option UrlMapping) (r : RedirectResponse)
      → row_reply token now o ≡ ok r
      → (m : UrlMapping) × (o ≡ some m) × (m.is_deleted ≡ false) × (r.url ≡ m.original_url)
  unfolding row_reply
  row_reply-ok token now none r h = absurd (cc)
  row_reply-ok token now (some m) r h = (m, refl, ground arith, ground arith)

  IsLive-reply :
      (w : World R D) (token : Text) (now : ℕ) (r : RedirectResponse)
      → (if is_cached_gone R w.redis token
          then raise 404
          else row_reply token now (D.find w.db token))
        ≡ ok r
      → (m : UrlMapping) × IsLive D w.db token m × (r.url ≡ m.original_url)
  IsLive-reply w token now r h =
      let (m, found, live, url) = row_reply-ok token now (D.find w.db token) r (ground arith) in
      (m, (found, live), url)

  pub redirect-row :
      (w : World R D) (token : Text) (now later : ℕ) (m : UrlMapping)
      → get_cached_url R w.redis token ≡ none
      → is_cached_gone R w.redis token ≡ false
      → D.find w.db token ≡ some m
      → (redirect R D w token now later).1 ≡ row_reply token now (some m)
  redirect-row w token now later m e g f = redirect-miss w token now later e ∙ rw (g, f)

-- In a state with a coherent cache, a redirect that answers leads to the URL of the token's row,
-- which is not deleted.
pub redirect-IsLive :
    (R : Redis) (D : Database) (w : World R D) (token : Text) (now later : ℕ) (r : RedirectResponse)
    → IsSound R D w
    → (redirect R D w token now later).1 ≡ ok r
    → (m : UrlMapping) × IsLive D w.db token m × (r.url ≡ m.original_url)
redirect-IsLive R D w token now later r v h = elim (Option-cases (get_cached_url R w.redis token)) [
  | inr (u, hit) ↦
      let (m, live, url) = v.entry token u hit in
      let same : ok (record { url = u; scanned = token }) ≡ ok r =
        sym (redirect-hit R D w token now later u hit) ∙ h in
      (m, live, ground (arith))
  | inl miss ↦ IsLive-reply R D w token now r (sym (redirect-miss R D w token now later miss) ∙ h)
]

module _ (R : Redis) (D : Database) (w : World R D) (token : Text) (t : ℕ) (m : UrlMapping)
    (found : D.find w.db token ≡ some m) (live : m.is_deleted ≡ false) where
  after_delete : World R D
  after_delete = (delete_qr R D w token t).0

  deleted : UrlMapping
  deleted = record m { is_deleted = true; updated_at = t }

  delete_qr-live : delete_qr R D w token t ≡ (
    record w {
      db = D.save w.db deleted;
      redis = delete_cached_url R w.redis token;
      purged = w.purged ++ token ∷ [];
    },
    ok tt,
  )
  unfolding delete_qr get_mapping_or_404 live_row delete_row deleted
  delete_qr-live = rw (found, live) (rw (D.find_token w.db token m found))

  find_deleted : D.find (D.save w.db deleted) token ≡ some deleted
  unfolding deleted
  find_deleted = ground (arith, D.find-save w.db deleted token, D.find_token w.db token m)

  deleted_reply : (now : ℕ) → row_reply R D token now (some deleted) ≡ raise 410
  unfolding deleted row_reply
  deleted_reply now = refl

-- After the deletion of a live link, the next redirect of its token answers 410.
pub delete-redirect :
    (R : Redis) (D : Database) (w : World R D) (token : Text) (t now later : ℕ) (m : UrlMapping)
    → IsLive D w.db token m
    → (redirect R D (delete_qr R D w token t).0 token now later).1 ≡ raise 410
delete-redirect R D w token t now later m (found, live) =
    rw (delete_qr-live R D w token t m found live) (
      redirect-row R D _ token now later (deleted R D w token t m found live)
        (cached-delete R w.redis token token ∙ if_pos (text_dec token token) refl _ _)
        (gone-delete_self R w.redis token) (find_deleted R D w token t m found live)
      ∙ deleted_reply R D w token t m found live now)

-- The loop ends without a token only if the token of each of its rounds is taken in the database.
pub create_loop-taken :
    (sha256 : Text → List ℕ) (D : Database) (time_ns : ℕ → ℕ) (db : D.State) (m : UrlMapping)
    (n i : ℕ)
    → create_loop sha256 D time_ns db m n i ≡ none
    → (j : ℕ) → i ≤ j
    → j < i + n
    → D.find db (generate_token sha256 m.original_url (time_ns j)) ≢ none
unfolding create_loop
create_loop-taken sha256 D time_ns db m zero i h j low high = absurd (omega arith)
create_loop-taken sha256 D time_ns db m (suc n) i h j low high =
    elim (Option-cases (D.insert db row)) [
      | inr (db', done) ↦ absurd (ground arith)
      | inl taken ↦ elim (ℕ_discrete i j) [
        | yes here ↦
            λ free. absurd (let (db', done) = D.insert_free db row (rw here free) in ground arith)
        | no other ↦
            create_loop-taken sha256 D time_ns db m n (i + 1) (ground arith) j (omega arith)
              (omega arith)
      ]
    ]
  where
    row : UrlMapping
    row = record m { token = generate_token sha256 m.original_url (time_ns i) }
