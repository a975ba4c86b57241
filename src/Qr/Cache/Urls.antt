-- ===== src/Qr/Cache/Urls.antt =====
-- What `get_cached_url` answers after each function of the cache.
use sd_practice_qr_code_gene.Base.{
  ℕ, ◌+◌, ◌/◌, ◌<◌, false, Option, none, some, [], ◌∷◌, ◌≡◌, ◌≢◌, ◌⊎◌, inl, inr, refl, ite, arith,
  ap, if_pos, if_neg, sym, ◌∙◌,
}
use sd_practice_qr_code_gene.Base.Int.{ℤ, pos, negsuc}
use sd_practice_qr_code_gene.Base.Text.{Text, codes, text_dec}
use sd_practice_qr_code_gene.Qr.Service.{url_key, gone_key, rate_key, ScanFields, Redis, key_dec}
use sd_practice_qr_code_gene.Qr.Cache.{
  Client, ttl_or_default, decode, get_cached_url, set_cached_url, delete_cached_url,
  set_cached_gone, check_rate_limit, enqueue_scan, is_cached_gone,
}

-- Redis is never handed a time to live that it would refuse.
pub ttl_or_default_pos : (ttl : Option ℤ) → 0 < ttl_or_default ttl
unfolding ttl_or_default
ttl_or_default_pos none = omega arith
ttl_or_default_pos (some (negsuc n)) = omega arith
ttl_or_default_pos (some (pos n)) = ground arith

decode-some : (url v : Text) → decode (some url) ≡ some v → v ≡ url
unfolding decode
decode-some [] v h = absurd (cc)
decode-some (c ∷ s) v h = cc

url_key_inj : {k t : Text} → url_key k ≡ url_key t → k ≡ t
url_key_inj e = cc

module _ (R : Redis) where
  -- An entry that is read after a write is the one written, or an older one of another token.
  pub cached-set :
      (c : Client R) (k url : Text) (ttl : Option ℤ) (t v : Text)
      → get_cached_url R (set_cached_url R c k url ttl) t ≡ some v
      → ((k ≡ t) × (v ≡ url)) ⊎ ((k ≢ t) × (get_cached_url R c t ≡ some v))
  unfolding get_cached_url set_cached_url
  cached-set none k url ttl t v h = absurd (cc)
  cached-set (some r) k url ttl t v h = elim (text_dec k t) [
    | yes e ↦ inl (
      e,
      decode-some url v (
          ap decode (
            sym (
              get_after
              ∙ if_pos (key_dec (url_key k) (url_key t)) (ap url_key e) (some url)
                  (R.get r (url_key t))))
          ∙ h),
    )
    | no e ↦ inr (
      e,
      ap decode (
            sym (
              get_after
              ∙ if_neg (key_dec (url_key k) (url_key t)) (λ x. e (url_key_inj x)) (some url)
                  (R.get r (url_key t))))
          ∙ h,
    )
  ]
    where
      get_after :
          R.get (R.set_ex r (url_key k) url (ttl_or_default ttl)) (url_key t)
          ≡ ite (key_dec (url_key k) (url_key t)) (some url) (R.get r (url_key t))
      get_after = R.get-set_ex r (url_key k) (url_key t) url _ (ttl_or_default_pos ttl)

  pub cached-set_self :
      (r : R.State) (k : Text) (c : ℕ) (url : Text) (ttl : Option ℤ)
      → get_cached_url R (set_cached_url R (some r) k (c ∷ url) ttl) k ≡ some (c ∷ url)
  unfolding get_cached_url set_cached_url decode
  cached-set_self r k c url ttl = ground (
    arith,
    R.get-set_ex r (url_key k) (url_key k) (c ∷ url) (ttl_or_default ttl),
    ttl_or_default_pos ttl,
  )

  pub gone-delete_self :
      (c : Client R) (k : Text) → is_cached_gone R (delete_cached_url R c k) k ≡ false
  unfolding is_cached_gone delete_cached_url
  gone-delete_self none k = refl
  gone-delete_self (some r) k =
      ground (arith, R.get-delete (R.delete r (url_key k)) (gone_key k) (gone_key k))

  pub cached-gone :
      (c : Client R) (k t : Text)
      → get_cached_url R (set_cached_gone R c k) t ≡ get_cached_url R c t
  unfolding get_cached_url set_cached_gone
  cached-gone none k t = refl
  cached-gone (some r) k t = ground (arith, R.get-set_ex r (gone_key k) (url_key t) (codes "1") 60)

  -- A deleted entry is gone, and the other tokens keep theirs.
  pub cached-delete :
      (c : Client R) (k t : Text)
      → get_cached_url R (delete_cached_url R c k) t
        ≡ ite (text_dec k t) none (get_cached_url R c t)
  unfolding get_cached_url delete_cached_url decode
  cached-delete none k t = ground arith
  cached-delete (some r) k t = ground (
    arith,
    R.get-delete (R.delete r (url_key k)) (gone_key k) (url_key t),
    R.get-delete r (url_key k) (url_key t),
  )

  pub cached-rate :
      (max_requests window : ℕ) (c : Client R) (ip : Text) (now : ℕ) (t : Text)
      → get_cached_url R (check_rate_limit R max_requests window c ip now).0 t
        ≡ get_cached_url R c t
  unfolding get_cached_url check_rate_limit
  cached-rate m w none ip now t = refl
  cached-rate m w (some r) ip now t =
      let key = rate_key ip (now / w) in
      let r' = R.incr r key in
      ground (arith, R.get-incr r t ip (now / w), R.get-expire r' key (url_key t) (w + 1))

  pub cached-scan :
      (c : Client R) (f : ScanFields) (t : Text)
      → get_cached_url R (enqueue_scan R c f) t ≡ get_cached_url R c t
  unfolding get_cached_url enqueue_scan
  cached-scan none f t = refl
  cached-scan (some r) f t = ap decode (R.get-xadd r f (url_key t))
