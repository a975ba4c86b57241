-- ===== src/Notify/Worker/Delivers/Settles.antt =====
-- How a delivery by a worker leaves its notification.
use sd_practice_qr_code_gene.Base.{
  ℕ, zero, suc, ◌+◌, ◌<◌, Option, none, some, List, [], ◌∷◌, ◌++◌, ◌≡◌, ◌≢◌, refl, arith, ◌∙◌, sym,
  ap, if_pos, Option-cases, Bool-cases, inl, inr, if◌then◌else◌,
}
use mathlib.Core.Option.{some-injective}
use sd_practice_qr_code_gene.Base.Dict.{Dict}
use sd_practice_qr_code_gene.Base.Text.{text_dec}
use sd_practice_qr_code_gene.Breaker.{CircuitBreaker, admit}
use sd_practice_qr_code_gene.Notify.{
  Notification, NotificationStatus, sent, failed, DeliveryError, no_error,
}
use sd_practice_qr_code_gene.Notify.Registry.{Config, breaker_of, get_channel}
use sd_practice_qr_code_gene.Notify.Delivery.{
  Attempt, Sending, returns, raises, hangs, Outcome, report, send, give_up, succeed, deliver_loop,
  deliver,
}
use sd_practice_qr_code_gene.Notify.Delivery.Retries.{Ends, deliver-Ends, delivered, exhausted}
use sd_practice_qr_code_gene.Notify.Queue
use sd_practice_qr_code_gene.Notify.Queue.{enqueue_dlq}
use sd_practice_qr_code_gene.Notify.RedisStore
use sd_practice_qr_code_gene.Notify.RedisStore.{notification_key, save, save_status, from_reply}
use sd_practice_qr_code_gene.Notify.RedisStore.Hashes.{
  Field, Hash, Formats, merge, outcome, serialize,
}
use sd_practice_qr_code_gene.Notify.RedisStore.Reads.{IsPlain, deserialize-fields}
use sd_practice_qr_code_gene.Notify.RedisStore.Commands.{
  SameJob, merge-serialize, merge-outcome, hgetall-save, hgetall-save_status,
}
use sd_practice_qr_code_gene.Notify.Worker.Delivers.{Worker, conclude, deliver_queued}

report-error : (b : CircuitBreaker) (a : Attempt) (s : Sending) → (report b a s).1 ≢ some no_error
unfolding report
report-error b a returns e = ground arith
report-error b a raises e = ground arith
report-error b a hangs e = ground arith

-- An attempt never fails without an error.
send-error : (b : CircuitBreaker) (a : Attempt) → (send b a).1 ≢ some no_error
unfolding send
send-error b a = elim (Bool-cases (admit b a.now).1) [
  | inl admitted ↦ rw (admitted, if◌then◌else◌) (report-error (admit b a.now).0 a a.sending)
  | inr rejected ↦ rw (rejected, if◌then◌else◌) (λ e. ground arith)
]

-- Delivery writes four fields.
SameJob-fields :
    (m n : Notification) (st : NotificationStatus) (time : Option ℕ) (e : Option DeliveryError)
    (count : ℕ)
    → SameJob m n
    → SameJob m (record n { status = st; sent_at = time; error = e; attempts = count })
SameJob-fields m n st time e count s = record {
  notification_id = s.notification_id;
  user_id = s.user_id;
  channel = s.channel;
  message = s.message;
  topic = s.topic;
  idempotency_key = s.idempotency_key;
  created_at = s.created_at;
}

-- The loop leaves what a save of the status does not write, and ends with a proper error.
deliver_loop-keeps :
    (cfg : Config) (attempts : ℕ → Attempt) (left attempt : ℕ) (m n : Notification)
    (b : CircuitBreaker) (delays : List ℕ) (e : DeliveryError)
    → SameJob m n
    → (left ≡ 0 → e ≢ no_error)
    → SameJob m (deliver_loop cfg attempts left attempt n b delays e).notification
      × IsPlain (deliver_loop cfg attempts left attempt n b delays e).notification
unfolding deliver_loop give_up succeed
deliver_loop-keeps cfg attempts zero attempt m n b delays e same proper =
    (SameJob-fields m n _ _ _ _ same, λ x. proper refl (some-injective e no_error x))
deliver_loop-keeps cfg attempts (suc left) attempt m n b delays e same proper =
    elim (Option-cases (send b (attempts attempt)).1) [
      | inl worked ↦ rw (worked, deliver_loop) (SameJob-fields m n _ _ _ _ same, λ x. ground arith)
      | inr (x, error) ↦
          rw (error, deliver_loop)
            (deliver_loop-keeps cfg attempts left (attempt + 1) m _ _ _ x
              (SameJob-fields m n _ _ _ _ same)
              (λ _ bad. send-error b (attempts attempt) (error ∙ ap some bad)))
    ]

deliver-keeps :
    (cfg : Config) (attempts : ℕ → Attempt) (n : Notification) (b : CircuitBreaker)
    → 0 < cfg.max_retries
    → SameJob n (deliver cfg attempts n b).notification
      × IsPlain (deliver cfg attempts n b).notification
unfolding deliver
deliver-keeps cfg attempts n b positive =
    deliver_loop-keeps cfg attempts cfg.max_retries 1 n n b [] no_error
      (record {
        notification_id = refl;
        user_id = refl;
        channel = refl;
        message = refl;
        topic = refl;
        idempotency_key = refl;
        created_at = refl;
      })
      (λ none_left. absurd (omega arith))

module _ (R : RedisStore.Redis) (Q : Queue.Redis) (F : Formats) (cfg : Config) where
  -- The HASH of a notification has its fields.
  pub record IsStored (r : R.State) (n : Notification) : Type 0 where
    pub fields : Hash
    pub stored : R.hgetall r (notification_key n.notification_id) ≡ some fields
    pub same : (f : Field) → fields f ≡ serialize F n f

  pub save-IsStored : (ttl : ℕ) (r : R.State) (n : Notification) → IsStored (save R F ttl r n) n
  save-IsStored ttl r n =
      let old = R.hgetall r (notification_key n.notification_id) in
      record {
        fields = merge (serialize F n) old;
        stored =
            hgetall-save R F ttl r n n.notification_id
            ∙ if_pos (text_dec n.notification_id n.notification_id) refl _ _;
        same = merge-serialize R F ttl n old;
      }

  get-save_status_same :
      (r : R.State) (m n : Notification)
      → IsStored r m
      → SameJob m n
      → IsPlain n
      → RedisStore.get R F (save_status R F r n) n.notification_id ≡ some (some n)
  unfolding RedisStore.get from_reply
  get-save_status_same r m n v job plain =
      let there : R.hgetall r (notification_key n.notification_id) ≡ some v.fields =
        ap (λ nid. R.hgetall r (notification_key nid)) (sym job.notification_id) ∙ v.stored in
      rw
        (
          hgetall-save_status R F 0 r n n.notification_id
              ∙ if_pos (text_dec n.notification_id n.notification_id) refl _ _
              ∙ ap (λ o. some (merge (outcome F n) o)) there,
          RedisStore.get,
        )
        (rw
          (
            deserialize-fields F (merge (outcome F n) (some v.fields)) n plain
                (λ f. merge-outcome R F 0 m n v.fields f job v.same),
            from_reply,
          )
          refl)

  -- The notification is sent, or it has failed and is the last of the dead letters; and it is read
  -- back from the store so.
  pub data IsSettled (w w' : Worker R Q) (n m : Notification) : Type 0 where
    is_sent :
        m.status ≡ sent
        → m.sent_at ≢ none
        → RedisStore.get R F w'.store n.notification_id ≡ some (some m)
        → Q.dead w'.queue ≡ Q.dead w.queue
        → IsSettled w w' n m
    is_dead :
        m.status ≡ failed
        → m.error ≢ none
        → m.attempts ≡ cfg.max_retries
        → RedisStore.get R F w'.store n.notification_id ≡ some (some m)
        → Q.dead w'.queue ≡ Q.dead w.queue ++ n.notification_id ∷ []
        → IsSettled w w' n m

  conclude-IsSettled :
      (w : Worker R Q) (b : Dict CircuitBreaker) (n : Notification) (o : Outcome)
      → Ends n 1 cfg.max_retries o
      → SameJob n o.notification
      → RedisStore.get R F (save_status R F w.store o.notification) n.notification_id
        ≡ some (some o.notification)
      → IsSettled w (conclude R Q F cfg (record w { breakers = b }) n.channel o) n o.notification
  unfolding conclude enqueue_dlq
  conclude-IsSettled w b n o (delivered st time _ _ _ alive _) job read = is_sent st time read (
      ap (λ d. Q.dead (if d then Q.rpush w.queue o.notification.notification_id else w.queue))
        alive)
  conclude-IsSettled w b n o (exhausted st error count dead _) job read =
      is_dead st error count read (
        ap (λ d. Q.dead (if d then Q.rpush w.queue o.notification.notification_id else w.queue))
          dead
        ∙ Q.dead-rpush w.queue o.notification.notification_id
        ∙ ap (λ nid. Q.dead w.queue ++ nid ∷ []) (sym job.notification_id))

  -- A delivery by a worker, on a valid channel and with at least one attempt configured, of a
  -- notification that is stored and has not been attempted: it ends, and reading the notification
  -- back finds it sent, with a time, and the dead letters as they were; or failed in all attempts,
  -- with an error, and its id is appended to the dead letters.
  pub deliver_queued-IsSettled :
      (w : Worker R Q) (n : Notification) (attempts : ℕ → Attempt) (b : Dict CircuitBreaker)
      → IsStored w.store n
      → n.attempts ≡ 0
      → 0 < cfg.max_retries
      → get_channel cfg w.breakers n.channel ≡ some b
      → (w' : Worker R Q) × (m : Notification) × (deliver_queued R Q F cfg w n attempts
          ≡ some (w', m))
        × IsSettled w w' n m
  unfolding deliver_queued
  deliver_queued-IsSettled w n attempts b v fresh positive channel =
      let first = breaker_of cfg b n.channel in
      let o = deliver cfg attempts n first in
      let (job, plain) = deliver-keeps cfg attempts n first positive in
      let read =
        ap (RedisStore.get R F (save_status R F w.store o.notification)) job.notification_id
        ∙ get-save_status_same w.store n o.notification v job plain in
      (
        conclude R Q F cfg (record w { breakers = b }) n.channel o,
        o.notification,
        rw (channel, deliver_queued) refl,
        conclude-IsSettled w b n o (deliver-Ends cfg attempts n first fresh) job read,
      )
