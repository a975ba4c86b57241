-- ===== src/Notify/Routes/Queued/Tests.antt =====
-- Runs of the routes with Redis: a request whose enqueuing fails, and the rate limit.
use sd_practice_qr_code_gene.Base.{
  Has, Once, ◌↔◌, ℕ, suc, map, List, [], ◌∷◌, ◌≡◌, ite, refl, arith,
}
use sd_practice_qr_code_gene.Base.Dict
use sd_practice_qr_code_gene.Base.Dict.{Dict}
use sd_practice_qr_code_gene.Base.Text.{Text, codes, text_dec}
use sd_practice_qr_code_gene.Breaker.{CircuitBreaker}
use sd_practice_qr_code_gene.Notify.{SendRequest}
use sd_practice_qr_code_gene.Notify.Store
use sd_practice_qr_code_gene.Notify.RedisStore.Writes.{Writes}
use sd_practice_qr_code_gene.Notify.Routes.Fanout.{FanoutRequest}
use sd_practice_qr_code_gene.Notify.Registry.{breaker_of}
use sd_practice_qr_code_gene.Notify.RedisStore
use sd_practice_qr_code_gene.Notify.RedisStore.Tests.{test_redis, test_formats, empty_keys}
use sd_practice_qr_code_gene.Notify.Queue.Tests.{test_redis as test_queue, two_dead}
use sd_practice_qr_code_gene.Notify.Routes.{raise}
use sd_practice_qr_code_gene.Notify.Routes
use sd_practice_qr_code_gene.Notify.Routes.{ok, World, NotificationSummary}
use sd_practice_qr_code_gene.Notify.RedisStore.{save_status}
use sd_practice_qr_code_gene.Notify.RedisStore.Tests.{one_job, given_up, memory, two-Writes}
use sd_practice_qr_code_gene.Notify.Routes.Queued.{get_notification, list_notifications}
use sd_practice_qr_code_gene.Notify.Routes.Queued.Answers.{list_notifications-same}
use sd_practice_qr_code_gene.Notify.Routes.RateLimit.{Counters, Limits}
use sd_practice_qr_code_gene.Notify.Routes.RateLimit.Windows.{
  checks, first_ones, check_rate_limit-checks,
}
use sd_practice_qr_code_gene.Notify.Routes.Queued.{System, Shared, answered, not_run, Arrival}

abbrev pub test_counters : Counters
test_counters = record {
  State = Text → ℕ;
  count = λ s k. s k;
  incr = λ s k. ((λ j. ite (text_dec k j) (suc (s k)) (s j)), suc (s k));
  expire = λ s k t. s;
  incr_answer = λ s k. refl;
  count-incr = λ s k j. refl;
  count-expire = λ s k j t h. refl;
}

abbrev pub two_each : Limits
two_each = record { per_user = 2; window = 60 }

abbrev four_requests : List (Text × ℕ)
four_requests = (codes "ann", 60) ∷ (codes "ann", 61) ∷ (codes "ann", 119) ∷ (codes "ann", 120) ∷ []

check_rate_limit-checks_example :
    checks test_counters two_each (λ k. 0) four_requests ≡ first_ones two_each [] four_requests
check_rate_limit-checks_example =
    check_rate_limit-checks test_counters two_each (λ k. 0) four_requests (omega arith) (λ k. refl)

abbrev pub system : System
system = record {
  counters = test_counters;
  store = test_redis;
  queue = test_queue;
  formats = test_formats;
  sha256 = λ s. s;
  config = record {
    failure_threshold = 5;
    recovery_seconds = 30;
    max_retries = 3;
    retry_base_delay = 1;
  };
  limits = two_each;
  ttl = 60;
}

abbrev pub no_requests : Shared system
no_requests = record {
  counters = λ k. 0;
  store = empty_keys;
  queue = two_dead;
  breakers = Dict.empty;
}

abbrev pub request : SendRequest
request = record {
  user_id = codes "ann";
  channel = codes "sms";
  message = codes "hello";
  topic = codes "news";
  priority = codes "critical";
}

abbrev lost : Arrival
lost = record { new_id = codes "n1"; now = 5; secs = 60; enqueuing = not_run }

abbrev pub again : Arrival
again = record { new_id = codes "n2"; now = 6; secs = 61; enqueuing = answered }

abbrev pub sms_breakers : Dict CircuitBreaker
sms_breakers = Dict.put Dict.empty (codes "sms") (breaker_of system.config Dict.empty (codes "sms"))

abbrev broadcast : FanoutRequest
broadcast = record {
  user_ids = codes "ann" ∷ codes "bob" ∷ codes "ann" ∷ [];
  channel = codes "sms";
  message = codes "hello";
  topic = codes "news";
  priority = codes "normal";
}

abbrev two_writes : Shared system
two_writes = record no_requests { store = save_status test_redis test_formats one_job given_up }

abbrev two_in_memory : World
two_in_memory = record { store = Store.save_status memory given_up; breakers = Dict.empty }

list_notifications-same_example :
    (get_notification system two_writes (codes "n1")
      ≡ Routes.get_notification two_in_memory (codes "n1"))
    × ((summaries : List NotificationSummary) × (list_notifications system two_writes (codes "u")
          ≡ ok summaries)
        × ((x : NotificationSummary)
            → Has x summaries ↔ Has x (Routes.list_notifications two_in_memory (codes "u")))
        × Once (map (λ x. x.notification_id) summaries)
        × Once (map (λ x. x.notification_id) (Routes.list_notifications two_in_memory (codes "u"))))
list_notifications-same_example =
    list_notifications-same system two_writes two_in_memory (codes "n1") (codes "u") two-Writes
