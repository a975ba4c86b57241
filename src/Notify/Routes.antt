-- ===== src/Notify/Routes.antt =====
-- notification_system/app/routes.py without Redis (`REDIS_URL` unset): no rate limit, and delivery
-- within the request. New ids and the clock are arguments.
pub mod Idempotency
pub mod Fanout
pub mod RateLimit
pub mod Queued
use sd_practice_qr_code_gene.Base.{
  ℕ, zero, suc, ◌+◌, ◌-◌, Bool, true, false, Option, none, some, List, [], ◌∷◌, ◌++◌, map, ite,
  length, ltb, ◌==◌, if◌then◌else◌,
}
use sd_practice_qr_code_gene.Base.Dict
use sd_practice_qr_code_gene.Base.Dict.{Dict}
use sd_practice_qr_code_gene.Base.Text.{Text, text_dec}
use sd_practice_qr_code_gene.Breaker.{CircuitBreaker}
use sd_practice_qr_code_gene.Notify.{
  Notification, NotificationStatus, DeliveryError, pending, SendRequest, compute_key,
}
use sd_practice_qr_code_gene.Notify.Store
use sd_practice_qr_code_gene.Notify.Store.{NotificationStore}
use sd_practice_qr_code_gene.Notify.Registry.{Config, breaker_of, get_channel}
use sd_practice_qr_code_gene.Notify.Delivery.{Attempt, deliver}

pub record World : Type 0 where
  pub store : NotificationStore
  pub breakers : Dict CircuitBreaker

pub record SendResponse : Type 0 where
  pub notification_id : Text
  pub status : NotificationStatus

pub record NotificationSummary : Type 0 where
  pub notification_id : Text
  pub status : NotificationStatus

pub record NotificationDetail : Type 0 where
  pub notification_id : Text
  pub user_id : Text
  pub channel : Text
  pub status : NotificationStatus
  pub created_at : ℕ
  pub sent_at : Option ℕ
  pub error : Option DeliveryError

unfoldable pub summary_of : Notification → NotificationSummary
summary_of n = record { notification_id = n.notification_id; status = n.status }

unfoldable pub detail_of : Notification → NotificationDetail
detail_of n = record {
  notification_id = n.notification_id;
  user_id = n.user_id;
  channel = n.channel;
  status = n.status;
  created_at = n.created_at;
  sent_at = n.sent_at;
  error = n.error;
}

pub data Reply {ℓ} (A : Type ℓ) : Type ℓ where
  ok : A → Reply A
  raise : ℕ → Reply A

module _ (cfg : Config) (sha256 : Text → Text) where
  unfoldable pub new_notification : SendRequest → Text → ℕ → Notification
  new_notification req new_id now = record {
    notification_id = new_id;
    user_id = req.user_id;
    channel = req.channel;
    message = req.message;
    topic = req.topic;
    idempotency_key = compute_key sha256 req.user_id req.topic req.message;
    status = pending;
    created_at = now;
    sent_at = none;
    error = none;
    attempts = 0;
  }

  -- `deliver(notification)`: the shared object changes, and its status is saved.
  unfoldable pub deliver_now : World → Notification → (ℕ → Attempt) → World × Notification
  deliver_now w n attempts =
      let o = deliver cfg attempts n (breaker_of cfg w.breakers n.channel) in
      (
        record {
          store = Store.save_status w.store o.notification;
          breakers = Dict.put w.breakers n.channel o.breaker;
        },
        o.notification,
      )

  -- `send_notification` behind the test of the channel
  unfoldable pub send_new : World → Notification → (ℕ → Attempt) → World × Reply SendResponse
  send_new w n attempts =
      let (w', n') = deliver_now (record w { store = Store.save w.store n }) n attempts in
      (w', ok (record { notification_id = n'.notification_id; status = n'.status }))

  unfoldable pub send_known :
      World → SendRequest → Text → ℕ → (ℕ → Attempt) → World × Reply SendResponse
  send_known w req new_id now attempts =
      let n = new_notification req new_id now in
      elim (Store.get_by_key w.store n.idempotency_key) [
        | some existing ↦ (
          w,
          ok (record { notification_id = existing.notification_id; status = existing.status }),
        )
        | none ↦ send_new w n attempts
      ]

  unfoldable pub send_notification :
      World → SendRequest → Text → ℕ → (ℕ → Attempt) → World × Reply SendResponse
  send_notification w req new_id now attempts = elim (get_channel cfg w.breakers req.channel) [
    | none ↦ (w, raise 422)
    | some breakers ↦ send_known (record w { breakers = breakers }) req new_id now attempts
  ]

-- `GET /` and `GET /{notification_id}`
unfoldable pub list_notifications : World → Text → List NotificationSummary
list_notifications w user_id = map summary_of (Store.list_for_user w.store user_id)

unfoldable pub get_notification : World → Text → Reply NotificationDetail
get_notification w notification_id = elim (Store.get w.store notification_id) [
  | none ↦ raise 404
  | some n ↦ ok (detail_of n)
]
