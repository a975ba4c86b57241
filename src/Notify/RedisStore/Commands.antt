-- ===== src/Notify/RedisStore/Commands.antt =====
-- What a write leaves under each key of Redis, and how the fields of a HASH are merged.
use sd_practice_qr_code_gene.Base.{ℕ, zero, suc, Option, none, some, ◌≡◌, ite, refl, arith, ◌∙◌, ap}
use sd_practice_qr_code_gene.Base.Text.{Text, text_dec}
use sd_practice_qr_code_gene.Notify.{Notification}
use sd_practice_qr_code_gene.Notify.RedisStore.{
  Redis, Key, notification_key, idempotency_key, key_dec, save, save_status, expire_notification,
}
use sd_practice_qr_code_gene.Notify.RedisStore.Hashes.{
  Field, Hash, Formats, merge, serialize, outcome,
}

-- What delivery leaves of a notification as it was.
pub record SameJob (m n : Notification) : Type 0 where
  pub notification_id : m.notification_id ≡ n.notification_id
  pub user_id : m.user_id ≡ n.user_id
  pub channel : m.channel ≡ n.channel
  pub message : m.message ≡ n.message
  pub topic : m.topic ≡ n.topic
  pub idempotency_key : m.idempotency_key ≡ n.idempotency_key
  pub created_at : m.created_at ≡ n.created_at

-- Two tests of one condition.
ite_iff {ℓ} :
    {A P Q : Type ℓ} (p : Dec P) (q : Dec Q) → (P → Q) → (Q → P) → (x y : A) → ite p x y ≡ ite q x y
ite_iff (yes p) (yes q) f g x y = refl
ite_iff (no p) (no q) f g x y = refl
ite_iff (yes p) (no q) f g x y = absurd (q (f p))
ite_iff (no p) (yes q) f g x y = absurd (p (g q))

module _ (R : Redis) (F : Formats) (ttl : ℕ) where
  pub merge-serialize :
      (n : Notification) (old : Option Hash) (f : Field)
      → merge (serialize F n) old f ≡ serialize F n f
  unfolding merge serialize
  merge-serialize n none f = refl
  merge-serialize n (some h) f =
      elim f as (λ g. merge (serialize F n) (some h) g ≡ serialize F n g) [
        | Field.notification_id ↦ refl
        | Field.user_id ↦ refl
        | Field.channel ↦ refl
        | Field.message ↦ refl
        | Field.topic ↦ refl
        | Field.idempotency_key ↦ refl
        | Field.status ↦ refl
        | Field.created_at ↦ refl
        | Field.sent_at ↦ refl
        | Field.error ↦ refl
        | Field.attempts ↦ refl
      ]

  -- The fields that an outcome does not write are those that delivery leaves.
  pub merge-outcome :
      (m n : Notification) (h : Hash) (f : Field)
      → SameJob m n
      → ((g : Field) → h g ≡ serialize F m g)
      → merge (outcome F n) (some h) f ≡ serialize F n f
  unfolding merge serialize outcome
  merge-outcome m n h f job same =
      elim f as (λ g. merge (outcome F n) (some h) g ≡ serialize F n g) [
        | Field.notification_id ↦ same Field.notification_id ∙ ap some job.notification_id
        | Field.user_id ↦ same Field.user_id ∙ ap some job.user_id
        | Field.channel ↦ same Field.channel ∙ ap some job.channel
        | Field.message ↦ same Field.message ∙ ap some job.message
        | Field.topic ↦ same Field.topic ∙ ap some job.topic
        | Field.idempotency_key ↦ same Field.idempotency_key ∙ ap some job.idempotency_key
        | Field.status ↦ refl
        | Field.created_at ↦ same Field.created_at ∙ ap (λ t. some (F.isoformat t)) job.created_at
        | Field.sent_at ↦ refl
        | Field.error ↦ refl
        | Field.attempts ↦ refl
      ]

  expiring :
      (t : ℕ) (r : R.State) (nid : Text)
      → ((j : Key) → R.hgetall (expire_notification R F t r nid) j ≡ R.hgetall r j)
        × ((j : Key) → R.get (expire_notification R F t r nid) j ≡ R.get r j)
  unfolding expire_notification
  expiring zero r nid = (λ j. refl, λ j. refl)
  expiring (suc t) r nid = (
    λ j. R.hgetall-expire r (notification_key nid) j (suc t) (omega arith),
    λ j. R.get-expire r (notification_key nid) j (suc t) (omega arith),
  )

  pub hgetall-save :
      (r : R.State) (n : Notification) (nid : Text)
      → R.hgetall (save R F ttl r n) (notification_key nid)
        ≡ ite
            (text_dec n.notification_id nid)
            (some (merge (serialize F n) (R.hgetall r (notification_key n.notification_id))))
            (R.hgetall r (notification_key nid))
  unfolding save
  hgetall-save r n nid =
      R.hgetall-zadd _ n.user_id nid n.notification_id n.created_at
      ∙ R.hgetall-set_ex _ n.idempotency_key nid n.notification_id _
      ∙ (expiring ttl _ n.notification_id).0 (notification_key nid)
      ∙ R.hgetall-hset r (notification_key n.notification_id) (notification_key nid) (serialize F n)
      ∙ ite_iff (key_dec (notification_key n.notification_id) (notification_key nid))
          (text_dec n.notification_id nid) (λ e. ground arith) (ap notification_key) _ _

  pub redis_get-save :
      (r : R.State) (n : Notification) (k : Text)
      → R.get (save R F ttl r n) (idempotency_key k)
        ≡ ite (text_dec n.idempotency_key k) (some n.notification_id) (R.get r (idempotency_key k))
  unfolding save
  redis_get-save r n k =
      R.get-zadd _ n.user_id k n.notification_id n.created_at
      ∙ R.get-set_ex _ (idempotency_key n.idempotency_key) (idempotency_key k) n.notification_id _
          (omega arith)
      ∙ ite_iff (key_dec (idempotency_key n.idempotency_key) (idempotency_key k))
          (text_dec n.idempotency_key k) (λ e. ground arith) (ap idempotency_key) _ _
      ∙ ap (ite (text_dec n.idempotency_key k) (some n.notification_id)) (
          (expiring ttl _ n.notification_id).1 (idempotency_key k)
          ∙ R.get-hset r n.notification_id k (serialize F n))

  pub redis_get-save_status :
      (r : R.State) (n : Notification) (k : Text)
      → R.get (save_status R F r n) (idempotency_key k) ≡ R.get r (idempotency_key k)
  unfolding save_status
  redis_get-save_status r n k = R.get-hset r n.notification_id k (outcome F n)

  -- What `save_status` writes, on a HASH that is there.
  pub hgetall-save_status :
      (r : R.State) (n : Notification) (nid : Text)
      → R.hgetall (save_status R F r n) (notification_key nid)
        ≡ ite
            (text_dec n.notification_id nid)
            (some (merge (outcome F n) (R.hgetall r (notification_key n.notification_id))))
            (R.hgetall r (notification_key nid))
  unfolding save_status
  hgetall-save_status r n nid =
      R.hgetall-hset r (notification_key n.notification_id) (notification_key nid) (outcome F n)
      ∙ ite_iff (key_dec (notification_key n.notification_id) (notification_key nid))
          (text_dec n.notification_id nid) (λ e. ground arith) (ap notification_key) _ _
