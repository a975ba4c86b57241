-- ===== src/Notify/Routes/Queued/Repeats.antt =====
-- A request that is sent again and again, with Redis.
use sd_practice_qr_code_gene.Base.{
  true, ℕ, none, some, List, [], ◌∷◌, ◌≡◌, ◌⊎◌, inl, inr, refl, arith, ◌∙◌, ap, if◌then◌else◌,
  Bool-cases, Option-cases, All,
}
use sd_practice_qr_code_gene.Base.Dict.{Dict}
use sd_practice_qr_code_gene.Base.Text.{Text}
use sd_practice_qr_code_gene.Breaker.{CircuitBreaker}
use sd_practice_qr_code_gene.Notify.{Notification, SendRequest, pending, compute_key}
use sd_practice_qr_code_gene.Notify.Registry.{get_channel}
use sd_practice_qr_code_gene.Notify.RedisStore
use sd_practice_qr_code_gene.Notify.RedisStore.Saved.{get_by_key_save}
use sd_practice_qr_code_gene.Notify.Queue
use sd_practice_qr_code_gene.Notify.Routes.{SendResponse, Reply, ok, raise, new_notification}
use sd_practice_qr_code_gene.Notify.Routes.RateLimit.{check_rate_limit}
use sd_practice_qr_code_gene.Notify.Routes.Queued.{
  System, Shared, Enqueuing, answered, not_run, answer_lost, Arrival, send_saved, send_accepted,
  send_checked, send_notification,
}

module _ (S : System) (req : SendRequest) where
  unfoldable pub key_of : Text
  key_of = compute_key S.sha256 req.user_id req.topic req.message

  -- The replies to the same request, one after another, and the state that they leave.
  pub send_all : Shared S → List Arrival → Shared S × List (Reply SendResponse)
  send_all w [] = (w, [])
  send_all w (a ∷ arrivals) =
      let (w', r) = send_notification S w req a in
      let (last, replies) = send_all w' arrivals in (last, r ∷ replies)

  -- A request is told of a notification, or that it comes too often or on no channel.
  pub Told : Notification → Reply SendResponse → Type 0
  Told n r =
      (r ≡ ok (record { notification_id = n.notification_id; status = n.status }))
      ⊎ ((r ≡ raise 429) ⊎ (r ≡ raise 422))

  -- The store has a notification for the key.
  Knows : Shared S → Notification → Type 0
  Knows w n = RedisStore.get_by_key S.store S.formats w.store key_of ≡ some (some n)

  send_checked_known :
      (w : Shared S) (a : Arrival) (n : Notification)
      → Knows w n
      → Told n (send_checked S w req a).1
        × ((send_checked S w req a).0.store ≡ w.store)
        × ((send_checked S w req a).0.queue ≡ w.queue)
  unfolding send_checked send_accepted new_notification key_of Knows Told
  send_checked_known w a n h = elim (Option-cases (get_channel S.config w.breakers req.channel)) [
    | inl e ↦ rw (e, send_checked) (inr (inr refl), refl, refl)
    | inr (d, e) ↦ rw (e, send_checked) (rw (h, send_accepted) (inl refl, refl, refl))
  ]

  send_notification_known :
      (w : Shared S) (a : Arrival) (n : Notification)
      → Knows w n
      → Told n (send_notification S w req a).1
        × ((send_notification S w req a).0.store ≡ w.store)
        × ((send_notification S w req a).0.queue ≡ w.queue)
  unfolding send_notification Told Knows
  send_notification_known w a n h =
      let (counters, granted) =
        check_rate_limit S.counters S.limits w.counters req.user_id a.secs in
      elim (Bool-cases granted) [
        | inl allowed ↦
            rw (allowed, if◌then◌else◌)
              (send_checked_known (record w { counters = counters }) a n h)
        | inr refused ↦ rw (refused, if◌then◌else◌) (inr (inl refl), refl, refl)
      ]

  send_all_known :
      (w : Shared S) (arrivals : List Arrival) (n : Notification)
      → Knows w n
      → All (Told n) (send_all w arrivals).1
        × ((send_all w arrivals).0.store ≡ w.store)
        × ((send_all w arrivals).0.queue ≡ w.queue)
  unfolding send_all Knows
  send_all_known w [] n h = (tt, refl, refl)
  send_all_known w (a ∷ arrivals) n h =
      let (told, same_store, same_queue) = send_notification_known w a n h in
      let (tolds, store, queue) =
        send_all_known (send_notification S w req a).0 arrivals n
          (ap (λ r. RedisStore.get_by_key S.store S.formats r key_of) same_store ∙ h) in
      ((told, tolds), store ∙ same_store, queue ∙ same_queue)

  pub record IsAccepted (w : Shared S) (a : Arrival) : Type 0 where
    pub within : (check_rate_limit S.counters S.limits w.counters req.user_id a.secs).1 ≡ true
    pub breakers : Dict CircuitBreaker
    pub channel : get_channel S.config w.breakers req.channel ≡ some breakers
    pub unknown : RedisStore.get_by_key S.store S.formats w.store key_of ≡ some none

  -- A request within the limit, on a channel, and with a key that has no notification.
  accepted_first :
      (w : Shared S) (a : Arrival)
      → IsAccepted w a
      → (b : Dict CircuitBreaker) × (counters : S.counters.State) × (send_notification S w req a
          ≡ send_saved S
              (record w { counters = counters; breakers = b })
              req
              (new_notification S.config S.sha256 req a.new_id a.now)
              a.enqueuing)
  unfolding send_notification send_checked send_accepted key_of new_notification
  accepted_first w a v = (
    v.breakers,
    (check_rate_limit S.counters S.limits w.counters req.user_id a.secs).0,
    rw (v.within, if◌then◌else◌)
        (rw (v.channel, send_checked) (rw (v.unknown, send_accepted) refl)),
  )

  -- The queue that a first request leaves, and its reply, by what becomes of the enqueuing.
  pub data FirstSent (queue : S.queue.State) (new_id : Text)
      : Enqueuing → S.queue.State → Reply SendResponse → Type 0 where
    promised :
        FirstSent queue new_id answered
          (Queue.enqueue S.queue queue new_id req.priority)
          (ok (record { notification_id = new_id; status = pending }))
    dropped : FirstSent queue new_id not_run queue (raise 500)
    unheard :
        FirstSent queue new_id answer_lost
          (Queue.enqueue S.queue queue new_id req.priority)
          (raise 500)

  saved_first :
      (w : Shared S) (new_id : Text) (now : ℕ) (e : Enqueuing)
      → let n = new_notification S.config S.sha256 req new_id now in
        let first = send_saved S w req n e in
        FirstSent w.queue new_id e first.0.queue first.1 × Knows first.0 n
  unfolding send_saved Knows key_of new_notification
  saved_first w new_id now answered = (
    promised,
    get_by_key_save S.store S.formats S.ttl w.store
        (new_notification S.config S.sha256 req new_id now) (λ e. ground arith),
  )
  saved_first w new_id now not_run = (
    dropped,
    get_by_key_save S.store S.formats S.ttl w.store
        (new_notification S.config S.sha256 req new_id now) (λ e. ground arith),
  )
  saved_first w new_id now answer_lost = (
    unheard,
    get_by_key_save S.store S.formats S.ttl w.store
        (new_notification S.config S.sha256 req new_id now) (λ e. ground arith),
  )

  pub send-send_all :
      (w : Shared S) (a : Arrival) (arrivals : List Arrival)
      → IsAccepted w a
      → FirstSent w.queue a.new_id a.enqueuing
          (send_notification S w req a).0.queue
          (send_notification S w req a).1
        × All
            (Told (new_notification S.config S.sha256 req a.new_id a.now))
            (send_all (send_notification S w req a).0 arrivals).1
        × ((send_all (send_notification S w req a).0 arrivals).0.queue
            ≡ (send_notification S w req a).0.queue)
  send-send_all w a arrivals accepted =
      let (b, counters, e) = accepted_first w a accepted in
      let (first, known) =
        saved_first (record w { counters = counters; breakers = b }) a.new_id a.now a.enqueuing in
      let (tolds, _, same) = send_all_known _ arrivals _ known in rw e (first, tolds, same)
