-- ===== src/Notify/RedisStore/Reads.antt =====
-- What the store on Redis reads back, next to the store in memory.
use sd_practice_qr_code_gene.Base.{ℕ, ◌≢◌, Option, none, some, [], ◌∷◌, ◌≡◌, refl, ◌∙◌, ap}
use sd_practice_qr_code_gene.Base.Decimal.{parse_int-decimal}
use sd_practice_qr_code_gene.Base.Text.{Text, text_dec}
use sd_practice_qr_code_gene.Notify.{
  Notification, NotificationStatus, pending, sent, failed, DeliveryError, no_error,
}
use sd_practice_qr_code_gene.Notify.RedisStore.Hashes.{
  Field, Hash, Formats, serialize, deserialize, value_of, status_of, non_empty, sent_at_text,
  sent_at_of, error_or_empty, error_or_none,
}

-- An error is recorded only after an attempt.
abbrev pub IsPlain : Notification → Type 0
IsPlain n = n.error ≢ some no_error

status_of-value_of : (st : NotificationStatus) → status_of (value_of st) ≡ some st
unfolding status_of value_of text_dec
status_of-value_of pending = refl
status_of-value_of sent = refl
status_of-value_of failed = refl

non_empty-text : (t : Text) → t ≢ [] → non_empty (some t) ≡ some t
unfolding non_empty
non_empty-text [] h = absurd (h refl)
non_empty-text (c ∷ s) h = refl

module _ (F : Formats) where
  sent_at-read :
      (time : Option ℕ) → sent_at_of F (non_empty (some (sent_at_text F time))) ≡ some time
  unfolding sent_at_of sent_at_text non_empty
  sent_at-read none = refl
  sent_at-read (some t) =
      rw (non_empty-text (F.isoformat t) (F.isoformat-IsText t))
        (rw (F.fromisoformat-isoformat t) refl)

  error_text-read : (t : Text) → t ≢ [] → error_or_none F t ≡ some (F.error_of t)
  unfolding error_or_none
  error_text-read [] h = absurd (h refl)
  error_text-read (c ∷ s) h = refl

  error-read :
      (e : Option DeliveryError) → e ≢ some no_error → error_or_none F (error_or_empty F e) ≡ e
  unfolding error_or_none error_or_empty
  error-read none h = refl
  error-read (some e) h =
      error_text-read (F.error_text e) (F.error_text-IsText e (λ p. h (ap some p)))
      ∙ ap some (F.error_of-error_text e)

  -- Any HASH with the fields of a notification is read as it.
  pub deserialize-fields :
      (d : Hash) (n : Notification)
      → IsPlain n
      → ((f : Field) → d f ≡ serialize F n f)
      → deserialize F d ≡ some n
  unfolding deserialize serialize
  deserialize-fields d n plain same =
      rw
        (
          same Field.notification_id,
          same Field.user_id,
          same Field.channel,
          same Field.message,
          same Field.topic,
          same Field.idempotency_key,
          same Field.status,
          same Field.created_at,
          same Field.sent_at,
          same Field.error,
          same Field.attempts,
          status_of-value_of n.status,
          F.fromisoformat-isoformat n.created_at,
          sent_at-read n.sent_at,
          error-read n.error plain,
          parse_int-decimal n.attempts,
        )
        refl
