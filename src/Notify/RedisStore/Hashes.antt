-- ===== src/Notify/RedisStore/Hashes.antt =====
-- notification_system/app/store_redis.py: a notification as the fields of a HASH, and back. The
-- fields are named by a data type; a mapping leaves out what it maps to `none`.
use sd_practice_qr_code_gene.Base.{ℕ, Option, none, some, [], ◌∷◌, ◌≡◌, ◌≢◌, ite}
use sd_practice_qr_code_gene.Base.Text.{Text, codes, text_dec}
use sd_practice_qr_code_gene.Base.Decimal.{decimal, parse_int}
use sd_practice_qr_code_gene.Notify.{
  Notification, NotificationStatus, pending, sent, failed, DeliveryError, no_error,
}

pub data Field : Type 0 where
  notification_id user_id channel message topic idempotency_key status created_at : Field
  sent_at error attempts : Field

abbrev pub Hash : Type 0
Hash = Field → Option Text

-- `HSET` with a mapping, on what the key held
unfoldable pub merge : Hash → Option Hash → Hash
merge m none f = m f
merge m (some h) f = elim (m f) [ none ↦ h f | some v ↦ some v ]

-- `datetime.isoformat` and its inverse, and the text of an error.
pub record Formats : Type 0 where
  pub isoformat : ℕ → Text
  pub fromisoformat : Text → Option ℕ
  pub error_text : DeliveryError → Text
  pub error_of : Text → DeliveryError
  pub fromisoformat-isoformat : (t : ℕ) → fromisoformat (isoformat t) ≡ some t
  pub isoformat-IsText : (t : ℕ) → isoformat t ≢ []
  pub error_of-error_text : (e : DeliveryError) → error_of (error_text e) ≡ e
  -- no message is empty, but for the one before the first attempt
  pub error_text-IsText : (e : DeliveryError) → e ≢ no_error → error_text e ≢ []

-- `status.value`
unfoldable pub value_of : NotificationStatus → Text
value_of pending = codes "pending"
value_of sent = codes "sent"
value_of failed = codes "failed"

-- `NotificationStatus(value)`, which may raise
unfoldable pub status_of : Text → Option NotificationStatus
status_of t = ite (text_dec t (codes "pending")) (some pending) (
    ite (text_dec t (codes "sent")) (some sent)
      (ite (text_dec t (codes "failed")) (some failed) none))

-- `if d.get("sent_at")`: a field that is missing or empty counts as none.
unfoldable pub non_empty : Option Text → Option Text
non_empty none = none
non_empty (some []) = none
non_empty (some (c ∷ s)) = some (c ∷ s)

abbrev pub and_then {ℓ κ} : {A : Type ℓ} {B : Type κ} → Option A → (A → Option B) → Option B
and_then none f = none
and_then (some a) f = f a

module _ (F : Formats) where
  unfoldable pub sent_at_text : Option ℕ → Text
  sent_at_text none = []
  sent_at_text (some t) = F.isoformat t

  -- `error or ""`
  unfoldable pub error_or_empty : Option DeliveryError → Text
  error_or_empty none = []
  error_or_empty (some e) = F.error_text e

  unfoldable pub serialize : Notification → Hash
  serialize n notification_id = some n.notification_id
  serialize n user_id = some n.user_id
  serialize n channel = some n.channel
  serialize n message = some n.message
  serialize n topic = some n.topic
  serialize n idempotency_key = some n.idempotency_key
  serialize n status = some (value_of n.status)
  serialize n created_at = some (F.isoformat n.created_at)
  serialize n sent_at = some (sent_at_text n.sent_at)
  serialize n error = some (error_or_empty n.error)
  serialize n attempts = some (decimal n.attempts)

  -- The mapping of `save_status`
  unfoldable pub outcome : Notification → Hash
  outcome n status = some (value_of n.status)
  outcome n sent_at = some (sent_at_text n.sent_at)
  outcome n error = some (error_or_empty n.error)
  outcome n attempts = some (decimal n.attempts)
  outcome n notification_id = none
  outcome n user_id = none
  outcome n channel = none
  outcome n message = none
  outcome n topic = none
  outcome n idempotency_key = none
  outcome n created_at = none

  -- `datetime.fromisoformat(d["sent_at"]) if d.get("sent_at") else None`
  unfoldable pub sent_at_of : Option Text → Option (Option ℕ)
  sent_at_of none = some none
  sent_at_of (some t) = and_then (F.fromisoformat t) (λ time. some (some time))

  -- `d["error"] or None`
  unfoldable pub error_or_none : Text → Option DeliveryError
  error_or_none [] = none
  error_or_none (c ∷ s) = some (F.error_of (c ∷ s))

  -- A missing field raises, and so does a text that its type does not have.
  unfoldable pub deserialize : Hash → Option Notification
  deserialize d = and_then (d notification_id) (λ nid. and_then (d user_id) (λ user.
      and_then (d channel) (λ ch. and_then (d message) (λ text. and_then (d topic) (λ about.
        and_then (d idempotency_key) (λ key. and_then (and_then (d status) status_of) (λ st.
          and_then (and_then (d created_at) F.fromisoformat) (λ created.
            and_then (sent_at_of (non_empty (d sent_at))) (λ time. and_then (d error) (λ e.
              and_then (and_then (d attempts) parse_int) (λ count. some (record {
                notification_id = nid;
                user_id = user;
                channel = ch;
                message = text;
                topic = about;
                idempotency_key = key;
                status = st;
                created_at = created;
                sent_at = time;
                error = error_or_none e;
                attempts = count;
              }))))))))))))
