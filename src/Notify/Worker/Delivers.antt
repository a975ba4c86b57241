-- ===== src/Notify/Worker/Delivers.antt =====
-- `deliver` of notification_system/app/delivery.py in a worker: the status is saved to the store on
-- Redis, and what has failed goes to the dead-letter queue. `none` is the ValueError of
-- `get_channel`, before which nothing has changed.
mod Tests
pub mod Settles
use sd_practice_qr_code_gene.Base.{ℕ, Bool, true, false, Option, none, some, if◌then◌else◌}
use sd_practice_qr_code_gene.Base.Dict
use sd_practice_qr_code_gene.Base.Dict.{Dict}
use sd_practice_qr_code_gene.Base.Text.{Text}
use sd_practice_qr_code_gene.Breaker.{CircuitBreaker}
use sd_practice_qr_code_gene.Notify.{Notification}
use sd_practice_qr_code_gene.Notify.Registry.{Config, breaker_of, get_channel}
use sd_practice_qr_code_gene.Notify.Delivery.{Attempt, Outcome, deliver}
use sd_practice_qr_code_gene.Notify.Queue
use sd_practice_qr_code_gene.Notify.Queue.{enqueue_dlq}
use sd_practice_qr_code_gene.Notify.RedisStore
use sd_practice_qr_code_gene.Notify.RedisStore.{save_status}
use sd_practice_qr_code_gene.Notify.RedisStore.Hashes.{Formats}

-- The breakers are those of the worker's process.
pub record Worker (R : RedisStore.Redis) (Q : Queue.Redis) : Type 0 where
  pub store : R.State
  pub queue : Q.State
  pub breakers : Dict CircuitBreaker

module _ (R : RedisStore.Redis) (Q : Queue.Redis) (F : Formats) (cfg : Config) where
  -- What `deliver` leaves behind after its loop.
  unfoldable pub conclude : Worker R Q → Text → Outcome → Worker R Q
  conclude w channel o = record {
    store = save_status R F w.store o.notification;
    queue = if o.dead_letter then enqueue_dlq Q w.queue o.notification.notification_id else w.queue;
    breakers = Dict.put w.breakers channel o.breaker;
  }

  unfoldable pub deliver_queued :
      Worker R Q → Notification → (ℕ → Attempt) → Option (Worker R Q × Notification)
  deliver_queued w n attempts = elim (get_channel cfg w.breakers n.channel) [
    | none ↦ none
    | some breakers ↦
        let o = deliver cfg attempts n (breaker_of cfg breakers n.channel) in
        some (conclude (record w { breakers = breakers }) n.channel o, o.notification)
  ]
