-- ===== src/Notify/RedisStore/Saved.antt =====
-- What is read after a save, whatever the keys held before.
use sd_practice_qr_code_gene.Base.{ℕ, some, ◌≡◌, refl, ◌∙◌, if_pos}
use sd_practice_qr_code_gene.Base.Text.{text_dec}
use sd_practice_qr_code_gene.Notify.{Notification}
use sd_practice_qr_code_gene.Notify.RedisStore.{
  Redis, notification_key, from_reply, save, get, get_by_key,
}
use sd_practice_qr_code_gene.Notify.RedisStore.Hashes.{Formats, merge, serialize}
use sd_practice_qr_code_gene.Notify.RedisStore.Reads.{IsPlain, deserialize-fields}
use sd_practice_qr_code_gene.Notify.RedisStore.Commands.{
  merge-serialize, hgetall-save, redis_get-save,
}

module _ (R : Redis) (F : Formats) (ttl : ℕ) (r : R.State) (n : Notification) (v : IsPlain n) where
  pub redis_get_save : get R F (save R F ttl r n) n.notification_id ≡ some (some n)
  unfolding get from_reply
  redis_get_save =
      let old = R.hgetall r (notification_key n.notification_id) in
      rw
        (
          hgetall-save R F ttl r n n.notification_id
              ∙ if_pos (text_dec n.notification_id n.notification_id) refl _ _,
          get,
        )
        (rw
          (
            deserialize-fields F (merge (serialize F n) old) n v (merge-serialize R F ttl n old),
            from_reply,
          )
          refl)

  pub get_by_key_save : get_by_key R F (save R F ttl r n) n.idempotency_key ≡ some (some n)
  unfolding get_by_key
  get_by_key_save =
      rw
        (
          redis_get-save R F ttl r n n.idempotency_key
              ∙ if_pos (text_dec n.idempotency_key n.idempotency_key) refl _ _,
          get_by_key,
        )
        redis_get_save
