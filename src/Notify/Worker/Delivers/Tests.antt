-- ===== src/Notify/Worker/Delivers/Tests.antt =====
-- A delivery by a worker whose channel never answers.
use sd_practice_qr_code_gene.Base.{ℕ, some, ◌≡◌, refl, arith}
use sd_practice_qr_code_gene.Base.Dict
use sd_practice_qr_code_gene.Base.Dict.{Dict}
use sd_practice_qr_code_gene.Base.Text.{codes, lower, lower_char, is_in, text_dec}
use sd_practice_qr_code_gene.Breaker.{CircuitBreaker}
use sd_practice_qr_code_gene.Notify.{Notification}
use sd_practice_qr_code_gene.Notify.Registry.{Config, breaker_of, get_channel}
use sd_practice_qr_code_gene.Notify.Delivery.{Attempt, hangs}
use sd_practice_qr_code_gene.Notify.Queue.Tests.{test_redis as test_queue, two_dead}
use sd_practice_qr_code_gene.Notify.RedisStore.Tests.{
  test_redis, test_formats, job, empty_keys, one_job,
}
use sd_practice_qr_code_gene.Notify.Worker.Delivers.{Worker, deliver_queued}
use sd_practice_qr_code_gene.Notify.Worker.Delivers.Settles.{
  IsSettled, save-IsStored, deliver_queued-IsSettled,
}

abbrev config : Config
config = record {
  failure_threshold = 5;
  recovery_seconds = 30;
  max_retries = 3;
  retry_base_delay = 1;
}

abbrev worker : Worker test_redis test_queue
worker = record { store = one_job; queue = two_dead; breakers = Dict.empty }

abbrev attempts : ℕ → Attempt
attempts i = record { now = i; later = i; sending = hangs }

abbrev email_breakers : Dict CircuitBreaker
email_breakers = Dict.put Dict.empty (codes "email") (breaker_of config Dict.empty (codes "email"))

email_listed : get_channel config Dict.empty (codes "email") ≡ some email_breakers
unfolding get_channel is_in lower lower_char text_dec
email_listed = refl

deliver_queued-IsSettled_example :
    (w' : Worker test_redis test_queue) × (m : Notification) × (deliver_queued test_redis test_queue
        test_formats config worker job attempts
      ≡ some (w', m))
    × IsSettled test_redis test_queue test_formats config worker w' job m
deliver_queued-IsSettled_example =
    deliver_queued-IsSettled test_redis test_queue test_formats config worker job attempts
      email_breakers (save-IsStored test_redis test_queue test_formats config 60 empty_keys job)
      refl (omega arith) email_listed
