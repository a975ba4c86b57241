-- ===== src/Notify/Delivery/Retries.antt =====
-- How the retry loop ends.
use sd_practice_qr_code_gene.Base.{
  ℕ, zero, suc, ◌+◌, ◌≤◌, ◌<◌, true, false, none, List, [], ◌≡◌, ◌≢◌, inl, inr, arith, refl,
  Option-cases,
}
use sd_practice_qr_code_gene.Breaker.{CircuitBreaker}
use sd_practice_qr_code_gene.Notify.{Notification, sent, failed, DeliveryError, no_error}
use sd_practice_qr_code_gene.Notify.Registry.{Config}
use sd_practice_qr_code_gene.Notify.Delivery.{
  Attempt, send, Outcome, give_up, succeed, deliver_loop, deliver,
}

-- What identifies a notification is left alone.
abbrev pub SameIdentity : Notification → Notification → Type 0
SameIdentity m n =
    (m.notification_id ≡ n.notification_id)
    × (m.user_id ≡ n.user_id)
    × (m.channel ≡ n.channel)
    × (m.message ≡ n.message)
    × (m.topic ≡ n.topic)
    × (m.idempotency_key ≡ n.idempotency_key)

-- Sent with a time and no error, at one of the attempts; or failed, after the last one, with an
-- error and in the dead-letter queue.
pub data Ends (n : Notification) (first last : ℕ) (o : Outcome) : Type 0 where
  delivered :
      o.notification.status ≡ sent
      → o.notification.sent_at ≢ none
      → o.notification.error ≡ none
      → first ≤ o.notification.attempts
      → o.notification.attempts ≤ last
      → o.dead_letter ≡ false
      → SameIdentity o.notification n
      → Ends n first last o
  exhausted :
      o.notification.status ≡ failed
      → o.notification.error ≢ none
      → o.notification.attempts ≡ last
      → o.dead_letter ≡ true
      → SameIdentity o.notification n
      → Ends n first last o

deliver_loop-Ends :
    (cfg : Config) (attempts : ℕ → Attempt) (left attempt last : ℕ) (n m : Notification)
    (b : CircuitBreaker) (delays : List ℕ) (e : DeliveryError)
    → attempt + left ≡ last + 1
    → n.attempts + 1 ≡ attempt
    → 0 < attempt
    → SameIdentity n m
    → Ends m 1 last (deliver_loop cfg attempts left attempt n b delays e)
unfolding deliver_loop give_up succeed
deliver_loop-Ends cfg attempts zero attempt last n m b delays e count last_try pos_ same =
    exhausted refl (λ x. ground arith) (omega arith) refl same
deliver_loop-Ends cfg attempts (suc left) attempt last n m b delays e count last_try pos_ same =
    elim (Option-cases (send b (attempts attempt)).1) [
      | inl worked ↦
          rw (worked, deliver_loop)
            (delivered refl (λ x. ground arith) refl (omega arith) (omega arith) refl same)
      | inr (x, error) ↦
          rw (error, deliver_loop)
            (deliver_loop-Ends cfg attempts left (attempt + 1) last _ m _ _ x (omega arith)
              (omega arith) (omega arith) same)
    ]

-- A notification without attempts so far is sent in one of the attempts that are configured, or it
-- has failed in each of them and goes to the dead-letter queue. The loop always ends so, and leaves
-- alone what identifies the notification.
pub deliver-Ends :
    (cfg : Config) (attempts : ℕ → Attempt) (n : Notification) (b : CircuitBreaker)
    → n.attempts ≡ 0
    → Ends n 1 cfg.max_retries (deliver cfg attempts n b)
unfolding deliver
deliver-Ends cfg attempts n b h =
    deliver_loop-Ends cfg attempts cfg.max_retries 1 cfg.max_retries n n b [] no_error (omega arith)
      (omega arith) (omega arith) (refl, refl, refl, refl, refl, refl)
