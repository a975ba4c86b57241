-- ===== src/Notify/RedisStore/Writes.antt =====
-- The same writes on both stores, and what each then reads.
use sd_practice_qr_code_gene.Base.{
  ℕ, none, some, List, [], ◌∷◌, ◌≡◌, refl, sym, ◌∙◌, ap, if_pos, Option-cases, map, inl, inr,
}
use mathlib.Core.Path.{ap₂}
use sd_practice_qr_code_gene.Base.Dict
use sd_practice_qr_code_gene.Base.Text.{Text, text_dec}
use sd_practice_qr_code_gene.Notify.{Notification}
use sd_practice_qr_code_gene.Notify.Store
use sd_practice_qr_code_gene.Notify.Store.{NotificationStore}
use sd_practice_qr_code_gene.Notify.RedisStore.Reads.{IsPlain, deserialize-fields}
use sd_practice_qr_code_gene.Notify.RedisStore.{
  Redis, Key, notification_key, idempotency_key, from_reply, save, save_status, get, get_by_key,
}
use sd_practice_qr_code_gene.Notify.RedisStore.Hashes.{Formats, merge, outcome, deserialize}
use sd_practice_qr_code_gene.Notify.RedisStore.{get_existing_keys, batch_get, collect}
use sd_practice_qr_code_gene.Notify.RedisStore.Agrees.{Agree, save-Agree, save_status-Agree}
use sd_practice_qr_code_gene.Notify.RedisStore.Commands.{SameJob, hgetall-save_status}

module _ (R : Redis) (F : Formats) (ttl : ℕ) where
  -- Writes on both, from empty ones, with nothing lapsing: a notification is saved, or the status
  -- of one that is stored, with what identifies it, and that owns its idempotency key. No error is
  -- the empty text, which Redis keeps for none.
  pub data Writes : R.State → NotificationStore → Type 0 where
    none_yet :
        (r : R.State)
        → ((k : Key) → R.hgetall r k ≡ none)
        → ((k : Key) → R.get r k ≡ none)
        → ((k : Key) → R.zrange r k ≡ [])
        → Writes r Store.init
    saved :
        (r : R.State) (s : NotificationStore) (n : Notification)
        → Writes r s
        → IsPlain n
        → Writes (save R F ttl r n) (Store.save s n)
    status_saved :
        (r : R.State) (s : NotificationStore) (m n : Notification)
        → Writes r s
        → Store.get s n.notification_id ≡ some m
        → SameJob m n
        → Dict.get s.by_key n.idempotency_key ≡ some n.notification_id
        → IsPlain n
        → Writes (save_status R F r n) (Store.save_status s n)

  Writes-Agree : (r : R.State) (s : NotificationStore) → Writes r s → Agree R F ttl r s
  Writes-Agree _ _ (none_yet r empty no_keys no_members) = record {
    hashes = λ nid. inl (unfold Store.get in Dict.get-empty nid, empty (notification_key nid));
    keys = λ k. no_keys (idempotency_key k) ∙ sym (Dict.get-empty k);
  }
  Writes-Agree _ _ (saved r' s' n before plain) =
      save-Agree R F ttl r' s' n (Writes-Agree r' s' before) plain
  Writes-Agree _ _ (status_saved r' s' m n before own job known plain) =
      save_status-Agree R F ttl r' s' m n (Writes-Agree r' s' before) own job known plain

  module _ (r : R.State) (s : NotificationStore) (v : Agree R F ttl r s) where
    get-same : (nid : Text) → get R F r nid ≡ some (Store.get s nid)
    unfolding get from_reply
    get-same nid = elim (v.hashes nid) [
      | inl (unknown, missing) ↦ rw (missing, get) (ap some (sym unknown))
      | inr (n, w) ↦
          rw (w.stored, get)
            (rw (deserialize-fields F w.fields n w.plain w.same, from_reply)
              (ap some (sym (w.own))))
    ]

    get_by_key-same : (key : Text) → get_by_key R F r key ≡ some (Store.get_by_key s key)
    unfolding get_by_key Store.get_by_key
    get_by_key-same key = elim (Option-cases (Dict.get s.by_key key)) [
      | inl e ↦ rw (v.keys key ∙ e, get_by_key) (rw (e, Store.get_by_key) refl)
      | inr (nid, e) ↦
          rw (v.keys key ∙ e, get_by_key)
            (get-same nid ∙ ap some (unfold Store.get in rw (e, Store.get_by_key) refl))
    ]

    existing-same : (ks : List Text) → get_existing_keys R F r ks ≡ Store.get_existing_keys s ks
    unfolding get_existing_keys Store.get_existing_keys
    existing-same [] = refl
    existing-same (k ∷ ks) = elim (Option-cases (Dict.get s.by_key k)) [
      | inl e ↦
          rw (v.keys k ∙ e, get_existing_keys) (rw (e, Store.get_existing_keys) (existing-same ks))
      | inr (nid, e) ↦
          rw (v.keys k ∙ e, get_existing_keys)
            (rw (e, Store.get_existing_keys) (ap (λ l. Store.add_id l k) (existing-same ks)))
    ]

  -- After the same writes on both stores, with nothing lapsing, no error that is the empty text, and
  -- statuses only of notifications that are stored, with what identifies them, and own their keys: a
  -- look-up by id or by key never raises on Redis and finds what the store in memory finds, and the
  -- test for keys answers what it answers there.
  pub Writes-same :
      (r : R.State) (s : NotificationStore)
      → Writes r s
      → (nid key : Text) (keys : List Text)
      → (get R F r nid ≡ some (Store.get s nid))
        × (get_by_key R F r key ≡ some (Store.get_by_key s key))
        × (get_existing_keys R F r keys ≡ Store.get_existing_keys s keys)
  Writes-same r s w nid key keys =
      let v = Writes-Agree r s w in
      (get-same r s v nid, get_by_key-same r s v key, existing-same r s v keys)

  -- A batch of look-ups finds what single look-ups in memory find.
  pub batch_get-same :
      (r : R.State) (s : NotificationStore)
      → Writes r s
      → (nids : List Text) → batch_get R F r nids ≡ some (map (Store.get s) nids)
  unfolding batch_get
  batch_get-same r s w [] = refl
  batch_get-same r s w (nid ∷ nids) =
      ap₂ collect (get-same r s (Writes-Agree r s w) nid) (batch_get-same r s w nids)

  -- A status that is saved when the HASH of its notification is gone leaves a HASH that a look-up
  -- of the notification raises on.
  pub get-save_status :
      (r : R.State) (n : Notification)
      → R.hgetall r (notification_key n.notification_id) ≡ none
      → get R F (save_status R F r n) n.notification_id ≡ none
  unfolding get from_reply
  get-save_status r n gone =
      rw
        (
          hgetall-save_status R F ttl r n n.notification_id
              ∙ if_pos (text_dec n.notification_id n.notification_id) refl _ _,
          get,
        )
        (rw gone (unfold deserialize merge outcome in refl))
