-- ===== src/Notify/RedisStore/Lists.antt =====
-- The notifications of a user, from both stores.
use sd_practice_qr_code_gene.Base.{
  ℕ, zero, suc, some, List, [], ◌∷◌, ◌≡◌, ◌↔◌, inl, inr, refl, sym, ◌∙◌, ap, map, arith, Has, Once,
  Option-cases,
}
use mathlib.Core.Path.{subst}
use mathlib.Core.Option.{none-ne-some}
use sd_practice_qr_code_gene.Base.Text.{Text}
use sd_practice_qr_code_gene.Notify.{Notification}
use sd_practice_qr_code_gene.Notify.Store
use sd_practice_qr_code_gene.Notify.Store.{NotificationStore, contains, add_id, ids_of}
use sd_practice_qr_code_gene.Notify.RedisStore.{
  Redis, notification_key, idempotency_key, user_key, expire_notification, save, save_status,
  present, list_for_user,
}
use sd_practice_qr_code_gene.Notify.RedisStore.Hashes.{Formats, serialize, outcome}
use sd_practice_qr_code_gene.Notify.RedisStore.Commands.{SameJob}
use sd_practice_qr_code_gene.Notify.RedisStore.Writes.{
  Writes, none_yet, saved, status_saved, batch_get-same,
}
use sd_practice_qr_code_gene.Notify.Store.Users.{
  ids_of-save_new, ids_of-save_keeps, ids_of-save_only, IsOwned, save-IsOwned, ids_of-init,
  get-init, save-Once, present-Once, Has-present, present-Has,
}

user_key-injective : {u v : Text} → user_key u ≡ user_key v → u ≡ v
user_key-injective e = ground arith

module _ (R : Redis) (F : Formats) (ttl : ℕ) where
  -- The same ids under each user, and each stored notification among those of its user.
  record SameIds (r : R.State) (s : NotificationStore) : Type 0 where
    forth : (user x : Text) → Has x (R.zrange r (user_key user)) → Has x (ids_of s user)
    back : (user x : Text) → Has x (ids_of s user) → Has x (R.zrange r (user_key user))
    owned : IsOwned s
    once : (user : Text) → Once (R.zrange r (user_key user))
    once_there : (user : Text) → Once (ids_of s user)

  zrange-expiring :
      (t : ℕ) (r : R.State) (nid user : Text)
      → R.zrange (expire_notification R F t r nid) (user_key user) ≡ R.zrange r (user_key user)
  unfolding expire_notification
  zrange-expiring zero r nid user = refl
  zrange-expiring (suc t) r nid user =
      R.zrange-expire r (notification_key nid) (user_key user) (suc t) (omega arith)

  -- Before the ZADD of a save.
  zrange-keyed :
      (r : R.State) (n : Notification) (user : Text)
      → R.zrange
          (R.set_ex
            (expire_notification R F ttl
              (R.hset r (notification_key n.notification_id) (serialize F n))
              n.notification_id)
            (idempotency_key n.idempotency_key)
            n.notification_id
            86400)
          (user_key user)
        ≡ R.zrange r (user_key user)
  zrange-keyed r n user =
      R.zrange-set_ex _ n.idempotency_key user n.notification_id _
      ∙ zrange-expiring ttl _ n.notification_id user
      ∙ R.zrange-hset r n.notification_id user (serialize F n)

  save-forth :
      (r : R.State) (s : NotificationStore) (n : Notification) (user x : Text)
      → SameIds r s
      → Has x (R.zrange (save R F ttl r n) (user_key user))
      → Has x (ids_of (Store.save s n) user)
  unfolding save
  save-forth r s n user x v h =
      elim (R.zadd_only _ (user_key n.user_id) (user_key user) n.notification_id x n.created_at h) [
        | inl old ↦
            ids_of-save_keeps s n user x
              (v.forth user x (subst (Has x) (zrange-keyed r n user) old))
        | inr (key, new) ↦
            subst (λ y. Has y (ids_of (Store.save s n) user)) (sym new)
              (ids_of-save_new s n user x (user_key-injective key))
      ]

  save-back :
      (r : R.State) (s : NotificationStore) (n : Notification) (user x : Text)
      → SameIds r s
      → Has x (ids_of (Store.save s n) user)
      → Has x (R.zrange (save R F ttl r n) (user_key user))
  unfolding save
  save-back r s n user x v h = elim (ids_of-save_only s n user x h) [
    | inl old ↦
        R.zadd_keeps _ (user_key n.user_id) (user_key user) n.notification_id x n.created_at
          (subst (Has x) (sym (zrange-keyed r n user)) (v.back user x old))
    | inr (own, new) ↦
        subst (λ y. Has y (R.zrange (save R F ttl r n) (user_key user))) (sym new)
          (subst (λ u. Has n.notification_id (R.zrange (save R F ttl r n) (user_key u))) own
            (R.zadd_new _ (user_key n.user_id) n.notification_id n.created_at))
  ]

  save-SameIds :
      (r : R.State) (s : NotificationStore) (n : Notification)
      → SameIds r s
      → SameIds (save R F ttl r n) (Store.save s n)
  unfolding save
  save-SameIds r s n v = record {
    forth = λ user x h. save-forth r s n user x v h;
    back = λ user x h. save-back r s n user x v h;
    owned = save-IsOwned s n v.owned;
    once = λ user.
        R.zadd_once _ (user_key n.user_id) (user_key user) n.notification_id n.created_at
          (subst Once (sym (zrange-keyed r n user)) (v.once user));
    once_there = save-Once s n v.once_there;
  }

  save_status-SameIds :
      (r : R.State) (s : NotificationStore) (m n : Notification)
      → SameIds r s
      → Store.get s n.notification_id ≡ some m
      → SameJob m n
      → SameIds (save_status R F r n) (Store.save_status s n)
  unfolding save_status Store.save_status
  save_status-SameIds r s m n v own job = record {
    forth = λ user x h.
        ids_of-save_keeps s n user x
          (v.forth user x (subst (Has x) (R.zrange-hset r n.notification_id user (outcome F n)) h));
    back = λ user x h. subst (Has x) (sym (R.zrange-hset r n.notification_id user (outcome F n))) (
        v.back user x (elim (ids_of-save_only s n user x h) [
          | inl old ↦ old
          | inr (same, new) ↦
              let listed = (v.owned n.notification_id m own).1 in
              subst (λ y. Has y (ids_of s user)) (sym new)
                (subst (λ u. Has n.notification_id (ids_of s u)) (job.user_id ∙ same) listed)
        ]));
    owned = save-IsOwned s n v.owned;
    once = λ user.
        subst Once (sym (R.zrange-hset r n.notification_id user (outcome F n))) (v.once user);
    once_there = save-Once s n v.once_there;
  }

  Writes-SameIds : (r : R.State) (s : NotificationStore) → Writes R F ttl r s → SameIds r s
  Writes-SameIds _ _ (none_yet r empty no_keys no_members) = record {
    forth = λ user x h. absurd (nobody x (subst (Has x) (no_members (user_key user)) h));
    back = λ user x h. absurd (nobody x (subst (Has x) (ids_of-init user) h));
    owned = λ nid n e. absurd (none-ne-some n (sym (get-init nid) ∙ e));
    once = λ user. subst Once (sym (no_members (user_key user))) tt;
    once_there = λ user. subst Once (sym (ids_of-init user)) tt;
  }
    where
      nobody : (x : Text) → ¬ Has x []
      nobody x h = elim h [ ]
  Writes-SameIds _ _ (saved r s n before plain) = save-SameIds r s n (Writes-SameIds r s before)
  Writes-SameIds _ _ (status_saved r s m n before own job known plain) =
      save_status-SameIds r s m n (Writes-SameIds r s before) own job

  present-map :
      (s : NotificationStore) (ids : List Text)
      → present R F (map (Store.get s) ids) ≡ Store.present s ids
  unfolding present Store.present
  present-map s [] = refl
  present-map s (i ∷ ids) = elim (Option-cases (Store.get s i)) [
    | inl e ↦ rw (e, present) (rw (e, Store.present) (present-map s ids))
    | inr (n, e) ↦ rw (e, present) (rw (e, Store.present) (ap (λ l. n ∷ l) (present-map s ids)))
  ]

  present_moves :
      (s : NotificationStore) (ids others : List Text) (n : Notification)
      → ((x : Text) → Has x ids → Has x others)
      → Has n (Store.present s ids)
      → Has n (Store.present s others)
  present_moves s ids others n move h =
      let (nid, listed, own) = Has-present s ids n h in
      present-Has s others n nid (move nid listed) own

  -- After the same writes on both stores, with nothing lapsing: the list of a user's notifications
  -- never raises on Redis, and has the notifications that the store in memory lists for the user, each
  -- once on both sides, in an order of its own.
  pub list_for_user-same :
      (r : R.State) (s : NotificationStore) (user : Text)
      → Writes R F ttl r s
      → (ns : List Notification) × (list_for_user R F r user ≡ some ns)
        × ((n : Notification) → Has n ns ↔ Has n (Store.list_for_user s user))
        × Once (map (λ n. n.notification_id) ns)
        × Once (map (λ n. n.notification_id) (Store.list_for_user s user))
  unfolding list_for_user Store.list_for_user
  list_for_user-same r s user w =
      let v = Writes-SameIds r s w in
      let ids = R.zrange r (user_key user) in
      (
        Store.present s ids,
        rw (batch_get-same R F ttl r s w ids, list_for_user) (ap some (present-map s ids)),
        (λ n. (
          present_moves s ids (ids_of s user) n (v.forth user),
          present_moves s (ids_of s user) ids n (v.back user),
        )),
        present-Once s ids v.owned (v.once user),
        present-Once s (ids_of s user) v.owned (v.once_there user),
      )
