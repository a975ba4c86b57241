-- ===== src/Notify/RedisStore/Agrees.antt =====
-- About one write on both stores.
use sd_practice_qr_code_gene.Base.{
  ℕ, ◌⊎◌, none, some, ◌≡◌, ite, sym, ◌∙◌, ap, if_pos, if_neg, inl, inr,
}
use mathlib.Core.Path.{subst}
use mathlib.Core.Option.{some-injective, none-ne-some}
use sd_practice_qr_code_gene.Notify.Store.Laws.{get-save, by_key-save}
use sd_practice_qr_code_gene.Base.Dict
use sd_practice_qr_code_gene.Base.Text.{Text, text_dec}
use sd_practice_qr_code_gene.Notify.{Notification}
use sd_practice_qr_code_gene.Notify.Store
use sd_practice_qr_code_gene.Notify.Store.{NotificationStore}
use sd_practice_qr_code_gene.Notify.RedisStore.Reads.{IsPlain}
use sd_practice_qr_code_gene.Notify.RedisStore.{
  Redis, notification_key, idempotency_key, save, save_status,
}
use sd_practice_qr_code_gene.Notify.RedisStore.Hashes.{
  Field, Hash, Formats, merge, serialize, outcome,
}
use sd_practice_qr_code_gene.Notify.RedisStore.Commands.{
  SameJob, merge-serialize, merge-outcome, hgetall-save, redis_get-save, redis_get-save_status,
  hgetall-save_status,
}

module _ (R : Redis) (F : Formats) (ttl : ℕ) where
  pub record Holds (r : R.State) (s : NotificationStore) (nid : Text) (n : Notification)
      : Type 0 where
    pub own : Store.get s nid ≡ some n
    pub fields : Hash
    pub stored : R.hgetall r (notification_key nid) ≡ some fields
    pub same : (f : Field) → fields f ≡ serialize F n f
    pub plain : IsPlain n

  pub record Agree (r : R.State) (s : NotificationStore) : Type 0 where
    pub hashes :
        (nid : Text)
        → ((Store.get s nid ≡ none) × (R.hgetall r (notification_key nid) ≡ none))
          ⊎ ((n : Notification) × Holds r s nid n)
    pub keys : (k : Text) → R.get r (idempotency_key k) ≡ Dict.get s.by_key k

  -- A write of one notification, whatever its fields are merged with.
  write-hashes :
      (r r' : R.State) (s : NotificationStore) (n : Notification) (fields : Hash)
      → Agree r s
      → IsPlain n
      → ((nid : Text)
          → R.hgetall r' (notification_key nid)
            ≡ ite
                (text_dec n.notification_id nid)
                (some fields)
                (R.hgetall r (notification_key nid)))
      → ((f : Field) → fields f ≡ serialize F n f)
      → (nid : Text)
      → ((Store.get (Store.save s n) nid ≡ none) × (R.hgetall r' (notification_key nid) ≡ none))
        ⊎ ((m : Notification) × Holds r' (Store.save s n) nid m)
  write-hashes r r' s n fields v plain written same nid = elim (text_dec n.notification_id nid) [
    | yes p ↦ inr (
      n,
      record {
        own = get-save s n nid ∙ if_pos (text_dec n.notification_id nid) p _ _;
        fields = fields;
        stored = written nid ∙ if_pos (text_dec n.notification_id nid) p _ _;
        same = same;
        plain = plain;
      },
    )
    | no p ↦
        let kept = get-save s n nid ∙ if_neg (text_dec n.notification_id nid) p _ _ in
        let left = written nid ∙ if_neg (text_dec n.notification_id nid) p _ _ in
        elim (v.hashes nid) [
          | inl (unknown, missing) ↦ inl (kept ∙ unknown, left ∙ missing)
          | inr (m, w) ↦ inr (
            m,
            record {
              own = kept ∙ w.own;
              fields = w.fields;
              stored = left ∙ w.stored;
              same = w.same;
              plain = w.plain;
            },
          )
        ]
  ]

  pub save-Agree :
      (r : R.State) (s : NotificationStore) (n : Notification)
      → Agree r s
      → IsPlain n
      → Agree (save R F ttl r n) (Store.save s n)
  save-Agree r s n v plain = record {
    hashes =
        write-hashes r (save R F ttl r n) s n
          (merge (serialize F n) (R.hgetall r (notification_key n.notification_id))) v plain
          (hgetall-save R F ttl r n)
          (merge-serialize R F ttl n (R.hgetall r (notification_key n.notification_id)));
    keys = λ k.
        redis_get-save R F ttl r n k
        ∙ ap (ite (text_dec n.idempotency_key k) (some n.notification_id)) (v.keys k)
        ∙ sym (by_key-save s n k);
  }

  pub save_status-Agree :
      (r : R.State) (s : NotificationStore) (m n : Notification)
      → Agree r s
      → Store.get s n.notification_id ≡ some m
      → SameJob m n
      → Dict.get s.by_key n.idempotency_key ≡ some n.notification_id
      → IsPlain n
      → Agree (save_status R F r n) (Store.save_status s n)
  unfolding Store.save_status
  save_status-Agree r s m n v own job known plain = elim (v.hashes n.notification_id) [
    | inl (unknown, missing) ↦ absurd (none-ne-some m (sym unknown ∙ own))
    | inr (m', w) ↦
        let same : m' ≡ m = some-injective m' m (sym (w.own) ∙ own) in
        let job' = subst (λ x. SameJob x n) (sym same) job in
        record {
          hashes =
              write-hashes r (save_status R F r n) s n (merge (outcome F n) (some w.fields)) v plain
                (λ nid.
                  hgetall-save_status R F ttl r n nid
                  ∙ ap
                      (λ o.
                        ite (text_dec n.notification_id nid) (some (merge (outcome F n) o))
                          (R.hgetall r (notification_key nid)))
                      w.stored)
                (λ f. merge-outcome R F ttl m' n w.fields f job' w.same);
          keys = λ k.
              redis_get-save_status R F ttl r n k
              ∙ v.keys k
              ∙ sym (
                  by_key-save s n k ∙ elim (text_dec n.idempotency_key k) [
                    | yes p ↦
                        if_pos (text_dec n.idempotency_key k) p _ _
                        ∙ sym known
                        ∙ ap (Dict.get s.by_key) p
                    | no p ↦ if_neg (text_dec n.idempotency_key k) p _ _
                  ]);
        }
  ]
