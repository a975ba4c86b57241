-- ===== src/Notify.antt =====
-- The notification system, notification_system/app: models.py, idempotency.py and schemas.py. Times
-- are natural numbers of one unit.
mod Tests
pub mod Store
pub mod Registry
pub mod RedisStore
pub mod Queue
pub mod Worker
pub mod Delivery
pub mod Routes
pub mod Startup
use sd_practice_qr_code_gene.Base.{ℕ, Option, none, List, ◌∷◌, [], ◌++◌}
use sd_practice_qr_code_gene.Base.Text.{Text, codes}

pub data NotificationStatus : Type 0 where
  pending sent failed : NotificationStatus

-- What an attempt reports; the text of an error is its kind.
pub data DeliveryError : Type 0 where
  no_error timed_out circuit_open channel_error : DeliveryError

pub record Notification : Type 0 where
  pub notification_id : Text
  pub user_id : Text
  pub channel : Text
  pub message : Text
  pub topic : Text
  pub idempotency_key : Text
  pub status : NotificationStatus
  pub created_at : ℕ
  pub sent_at : Option ℕ
  pub error : Option DeliveryError
  pub attempts : ℕ

pub record SendRequest : Type 0 where
  pub user_id : Text
  pub channel : Text
  pub message : Text
  pub topic : Text
  pub priority : Text

-- `sha256` is the hexadecimal digest of the UTF-8 text.
unfoldable pub compute_key : (Text → Text) → Text → Text → Text → Text
compute_key sha256 user_id topic message =
    sha256 (user_id ++ codes "|" ++ topic ++ codes "|" ++ message)
