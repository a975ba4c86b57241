-- ===== src/Notify/Routes/Queued.antt =====
-- notification_system/app/routes.py with Redis (`REDIS_URL` set): a rate limit, the store on Redis,
-- and delivery by the worker, through the queue. What becomes of `aenqueue` is an argument; no other
-- command raises.
pub mod Tests
pub mod Repeats
pub mod Enqueues
pub mod Answers
use sd_practice_qr_code_gene.Base.{
  ℕ, ◌-◌, Bool, true, false, Option, none, some, List, [], ◌∷◌, map, length, ltb, ◌==◌, ◌||◌,
  if◌then◌else◌,
}
use sd_practice_qr_code_gene.Base.Dict.{Dict}
use sd_practice_qr_code_gene.Base.Text.{Text}
use sd_practice_qr_code_gene.Breaker.{CircuitBreaker}
use sd_practice_qr_code_gene.Notify.{Notification, SendRequest}
use sd_practice_qr_code_gene.Notify.Registry.{Config, get_channel}
use sd_practice_qr_code_gene.Notify.RedisStore
use sd_practice_qr_code_gene.Notify.RedisStore.Hashes.{Formats}
use sd_practice_qr_code_gene.Notify.Queue
use sd_practice_qr_code_gene.Notify.Routes.{
  SendResponse, NotificationSummary, NotificationDetail, summary_of, detail_of, Reply, ok, raise,
  new_notification,
}
use sd_practice_qr_code_gene.Notify.Routes.Fanout.{
  FanoutRequest, FanoutResponse, distinct, key_of_user, fresh_for,
}
use sd_practice_qr_code_gene.Notify.Routes.RateLimit.{Counters, Limits, check_rate_limit}

-- The servers and the libraries, and the settings; `ttl` is NOTIFICATION_TTL_S.
pub record System : Type 1 where
  pub counters : Counters
  pub store : RedisStore.Redis
  pub queue : Queue.Redis
  pub formats : Formats
  pub sha256 : Text → Text
  pub config : Config
  pub limits : Limits
  pub ttl : ℕ

-- The breakers are those of this process; the worker has its own.
pub record Shared (S : System) : Type 0 where
  pub counters : S.counters.State
  pub store : S.store.State
  pub queue : S.queue.State
  pub breakers : Dict CircuitBreaker

-- What becomes of `aenqueue`, or of the pipeline of `aenqueue_batch`, which Redis runs as a whole or
-- not at all: it is run and answered; it is not run, and raises; or it is run, but its answer is
-- lost, and it raises all the same.
pub data Enqueuing : Type 0 where
  answered not_run answer_lost : Enqueuing

-- What a request brings with it: a new id, the clock, `int(time.time())`, and what becomes of
-- `aenqueue`.
pub record Arrival : Type 0 where
  pub new_id : Text
  pub now : ℕ
  pub secs : ℕ
  pub enqueuing : Enqueuing

module _ (S : System) where
  -- From the save on; an exception is answered by the server with a 500.
  unfoldable pub send_saved :
      Shared S → SendRequest → Notification → Enqueuing → Shared S × Reply SendResponse
  send_saved w req n enqueuing =
      let saved = record w { store = RedisStore.save S.store S.formats S.ttl w.store n } in
      let enqueued = record saved {
        queue = Queue.enqueue S.queue w.queue n.notification_id req.priority;
      } in
      elim enqueuing [
        | answered ↦
            (enqueued, ok (record { notification_id = n.notification_id; status = n.status }))
        | not_run ↦ (saved, raise 500)
        | answer_lost ↦ (enqueued, raise 500)
      ]

  -- `aget_by_key`, which may raise, and what follows
  unfoldable pub send_accepted : Shared S → SendRequest → Arrival → Shared S × Reply SendResponse
  send_accepted w req a =
      let n = new_notification S.config S.sha256 req a.new_id a.now in
      elim (RedisStore.get_by_key S.store S.formats w.store n.idempotency_key) [
        | none ↦ (w, raise 500)
        | some none ↦ send_saved w req n a.enqueuing
        | some (some existing) ↦ (
          w,
          ok (record { notification_id = existing.notification_id; status = existing.status }),
        )
      ]

  unfoldable pub send_checked : Shared S → SendRequest → Arrival → Shared S × Reply SendResponse
  send_checked w req a = elim (get_channel S.config w.breakers req.channel) [
    | none ↦ (w, raise 422)
    | some breakers ↦ send_accepted (record w { breakers = breakers }) req a
  ]

  unfoldable pub send_notification :
      Shared S → SendRequest → Arrival → Shared S × Reply SendResponse
  send_notification w req a =
      let (counters, granted) =
        check_rate_limit S.counters S.limits w.counters req.user_id a.secs in
      let counted = record w { counters = counters } in
      if granted then send_checked counted req a else (counted, raise 429)

  -- `FanoutResponse(...)`
  unfoldable pub fanout_response : FanoutRequest → List Notification → Reply FanoutResponse
  fanout_response req ns = ok (record {
    user_count = length req.user_ids;
    notification_ids = map (λ n. n.notification_id) ns;
    skipped = length req.user_ids - length ns;
  })

  -- `if notifications`, and the answer
  unfoldable pub fanout_saved :
      Shared S → FanoutRequest → List Notification → Enqueuing → Shared S × Reply FanoutResponse
  fanout_saved w req [] enqueuing = (w, fanout_response req [])
  fanout_saved w req (n ∷ ns) enqueuing =
      let saved = record w {
        store = RedisStore.save_batch S.store S.formats S.ttl w.store (n ∷ ns);
      } in
      let ids = map (λ m. m.notification_id) (n ∷ ns) in
      let enqueued = record saved {
        queue = Queue.enqueue_batch S.queue w.queue ids req.priority;
      } in
      elim enqueuing [
        | answered ↦ (enqueued, fanout_response req (n ∷ ns))
        | not_run ↦ (saved, raise 500)
        | answer_lost ↦ (enqueued, raise 500)
      ]

  -- `ids` gives the new ids.
  unfoldable pub notifications_for : Shared S → FanoutRequest → (ℕ → Text) → ℕ → List Notification
  notifications_for w req ids now =
      let users = distinct req.user_ids in
      let keys = map (key_of_user S.config S.sha256 req) users in
      fresh_for S.config S.sha256 req (RedisStore.get_existing_keys S.store S.formats w.store keys)
        ids now 0 users

  unfoldable pub fanout_notification :
      Shared S → FanoutRequest → (ℕ → Text) → ℕ → Enqueuing → Shared S × Reply FanoutResponse
  fanout_notification w req ids now enqueuing =
      if length req.user_ids == 0 || ltb 10000 (length req.user_ids)
      then (w, raise 422)
      else elim (get_channel S.config w.breakers req.channel) [
        | none ↦ (w, raise 422)
        | some breakers ↦
            fanout_saved (record w { breakers = breakers }) req (notifications_for w req ids now)
              enqueuing
      ]

  -- `GET /` and `GET /{notification_id}`
  unfoldable pub list_notifications : Shared S → Text → Reply (List NotificationSummary)
  list_notifications w user_id = elim (RedisStore.list_for_user S.store S.formats w.store user_id) [
    | none ↦ raise 500
    | some ns ↦ ok (map summary_of ns)
  ]

  unfoldable pub get_notification : Shared S → Text → Reply NotificationDetail
  get_notification w notification_id =
      elim (RedisStore.get S.store S.formats w.store notification_id) [
        | none ↦ raise 500
        | some none ↦ raise 404
        | some (some n) ↦ ok (detail_of n)
      ]
