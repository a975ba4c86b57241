-- ===== src/Notify/Worker/Group/Tests.antt =====
-- A run of the streams with their group: a message is enqueued, read and finished.
use sd_practice_qr_code_gene.Base.{ℕ, false, some, [], ◌∷◌, ◌≡◌, inl, refl}
use sd_practice_qr_code_gene.Base.Dict
use sd_practice_qr_code_gene.Base.Text.{codes, lower, lower_char, is_in, text_dec}
use sd_practice_qr_code_gene.Notify.{pending}
use sd_practice_qr_code_gene.Notify.Registry.{get_channel}
use sd_practice_qr_code_gene.Notify.Routes.{ok}
use sd_practice_qr_code_gene.Notify.Routes.RateLimit.{check_rate_limit}
use sd_practice_qr_code_gene.Notify.Routes.Queued
use sd_practice_qr_code_gene.Notify.Routes.Queued.{System, send_notification}
use sd_practice_qr_code_gene.Notify.Routes.Queued.Repeats.{IsAccepted, key_of}
use sd_practice_qr_code_gene.Notify.Routes.Queued.Tests.{system, request, again, sms_breakers}
use sd_practice_qr_code_gene.Notify.Worker.Group.Promised.{send-IsKept}
use sd_practice_qr_code_gene.Notify.Queue.{stream_of, enqueue}
use sd_practice_qr_code_gene.Notify.RedisStore
use sd_practice_qr_code_gene.Notify.RedisStore.Tests.{empty_keys, test_redis, test_formats, one_job}
use sd_practice_qr_code_gene.Notify.Worker.Group.{
  Batch, Shared, start, finish, read_next, Reach, here, next, reads, finishes,
}
use sd_practice_qr_code_gene.Notify.Worker.Group.NeverLost.{IsKept, enqueue-IsKept}
use sd_practice_qr_code_gene.Notify.Worker.Group.Log.{Log, log_queue}
use sd_practice_qr_code_gene.Notify.Worker.Group.Given.{test_group}

abbrev Test : Type 0
Test = Shared log_queue test_group test_redis test_formats

abbrev no_messages : Log
no_messages = record { seen = λ k. []; fresh = λ k. []; acked = λ k i. false; dead = [] }

abbrev started : Test
started = start log_queue test_group test_redis test_formats no_messages

abbrev enqueued : Test
enqueued = record started { queue = enqueue log_queue started.queue (codes "n1") (codes "normal") }

abbrev read_one : Test
read_one = record enqueued {
  queue = (read_next log_queue test_group enqueued.queue 20).0;
  given =
      record {
        stream = (read_next log_queue test_group enqueued.queue 20).1;
        messages = (read_next log_queue test_group enqueued.queue 20).2;
      }
      ∷ enqueued.given;
}

abbrev batch : Batch log_queue test_group test_redis test_formats
batch = record {
  stream = (read_next log_queue test_group enqueued.queue 20).1;
  messages = (read_next log_queue test_group enqueued.queue 20).2;
}

abbrev finished : Test
finished = record read_one {
  queue = finish log_queue test_group test_redis test_formats one_job read_one.queue batch;
  done = record { store = one_job; batch = batch } ∷ read_one.done;
}

ends : Reach log_queue test_group test_redis test_formats enqueued finished
ends = next (next here (reads enqueued 20)) (finishes read_one one_job batch (inl refl))

enqueue-IsKept_example :
    (i : ℕ) × IsKept log_queue test_group test_redis test_formats
      (stream_of (codes "normal"))
      i
      (some (codes "n1"))
      finished
enqueue-IsKept_example =
    enqueue-IsKept log_queue test_group test_redis test_formats no_messages started finished
      (codes "n1") (codes "normal") here ends

abbrev log_system : System
log_system = record system { queue = log_queue }

abbrev unused : Queued.Shared log_system
unused = record {
  counters = λ k. 0;
  store = empty_keys;
  queue = no_messages;
  breakers = Dict.empty;
}

again-IsAccepted : IsAccepted log_system request unused again
unfolding check_rate_limit RedisStore.get_by_key get_channel is_in lower lower_char text_dec key_of
again-IsAccepted = record { within = refl; breakers = sms_breakers; channel = refl; unknown = refl }

send-IsKept_example :
    ((send_notification log_system unused request again).1
      ≡ ok (record { notification_id = codes "n2"; status = pending }))
    × ((i : ℕ) × IsKept log_queue test_group test_redis test_formats
          (stream_of (codes "critical"))
          i
          (some (codes "n2"))
          (record started { queue = (send_notification log_system unused request again).0.queue }))
unfolding start
send-IsKept_example =
    send-IsKept log_system test_group unused request again no_messages started
      (record started { queue = (send_notification log_system unused request again).0.queue })
      again-IsAccepted refl here refl here
