-- ===== src/Notify/Tests.antt =====
-- Runs of the theorems on the notification system.
use sd_practice_qr_code_gene.Base.{ℕ, ◌≡◌, none, [], ◌∷◌, refl}
use sd_practice_qr_code_gene.Base.Dict
use sd_practice_qr_code_gene.Base.Text.{codes, lower, lower_char, is_in, text_dec}
use sd_practice_qr_code_gene.Breaker
use sd_practice_qr_code_gene.Breaker.{admit, on_success}
use sd_practice_qr_code_gene.Notify.{Notification, SendRequest, pending, sent}
use sd_practice_qr_code_gene.Notify.Store
use sd_practice_qr_code_gene.Notify.Registry.{Config, breaker_of, get_channel}
use sd_practice_qr_code_gene.Notify.Delivery.{
  Attempt, returns, hangs, deliver, deliver_loop, succeed, send, report,
}
use sd_practice_qr_code_gene.Notify.Routes.{
  World, Reply, ok, SendResponse, send_notification, send_known, send_new, deliver_now,
  new_notification,
}
use sd_practice_qr_code_gene.Notify.Routes.Idempotency.{send-send}
use sd_practice_qr_code_gene.Notify.Routes.Fanout.{FanoutRequest}

abbrev notification : Notification
notification = record {
  notification_id = codes "n1";
  user_id = codes "ann";
  channel = codes "email";
  message = codes "hello";
  topic = codes "news";
  idempotency_key = codes "k";
  status = pending;
  created_at = 1;
  sent_at = none;
  error = none;
  attempts = 0;
}

abbrev config : Config
config = record {
  failure_threshold = 5;
  recovery_seconds = 30;
  max_retries = 3;
  retry_base_delay = 1;
}

abbrev attempts : ℕ → Attempt
attempts i = record { now = i; later = i; sending = hangs }

abbrev nothing_sent : World
nothing_sent = record { store = Store.init; breakers = Dict.empty }

abbrev request : SendRequest
request = record {
  user_id = codes "ann";
  channel = codes "sms";
  message = codes "hello";
  topic = codes "news";
  priority = codes "normal";
}

abbrev working : ℕ → Attempt
working i = record { now = i; later = i; sending = returns }

abbrev first_send : World × Reply SendResponse
first_send = send_notification config (λ s. s) nothing_sent request (codes "n1") 5 working

first_send_works : first_send.1 ≡ ok (record { notification_id = codes "n1"; status = sent })
unfolding send_notification send_known send_new deliver_now new_notification get_channel is_in lower
    lower_char text_dec breaker_of deliver deliver_loop succeed send report admit on_success
    Breaker.init Store.get_by_key Dict.get Dict.put
first_send_works = refl

send-send_example :
    ((send_notification config (λ s. s) first_send.0 request (codes "n2") 6 attempts).1
      ≡ ok (record { notification_id = codes "n1"; status = sent }))
    × ((send_notification config (λ s. s) first_send.0 request (codes "n2") 6 attempts).0.store
        ≡ first_send.0.store)
send-send_example =
    send-send config (λ s. s) nothing_sent request (codes "n1") (codes "n2") 5 6 working attempts
      (record { notification_id = codes "n1"; status = sent }) first_send_works

abbrev broadcast : FanoutRequest
broadcast = record {
  user_ids = codes "ann" ∷ codes "bob" ∷ codes "ann" ∷ [];
  channel = codes "sms";
  message = codes "hello";
  topic = codes "news";
  priority = codes "normal";
}
