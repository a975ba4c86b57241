-- ===== src/Notify/Delivery.antt =====
-- notification_system/app/delivery.py: the retry loop, over the circuit breaker of the channel.
-- What the channel does in each attempt is an argument. A send that times out goes on in its
-- thread, and reports to the breaker later, outside of this function.
pub mod Retries
use sd_practice_qr_code_gene.Base.{
  ℕ, zero, suc, ◌+◌, ◌-◌, ◌*◌, ◌^◌, Bool, true, false, Option, none, some, List, [], ◌∷◌, ◌++◌, ltb,
  if◌then◌else◌,
}
use sd_practice_qr_code_gene.Base.Text.{Text}
use sd_practice_qr_code_gene.Breaker.{CircuitBreaker, admit, on_success, on_failure}
use sd_practice_qr_code_gene.Notify.{
  Notification, pending, sent, failed, DeliveryError, no_error, timed_out, circuit_open,
  channel_error,
}
use sd_practice_qr_code_gene.Notify.Registry.{Config}

-- What `channel.send` of the inner channel does: it returns, raises, or takes too long.
pub data Sending : Type 0 where
  returns raises hangs : Sending

-- One attempt: the clock at its start and at its end, and the sending.
pub record Attempt : Type 0 where
  pub now : ℕ
  pub later : ℕ
  pub sending : Sending

-- `_send_with_timeout` around `_ProtectedChannel.send`: the breaker, and the error if one is raised.
unfoldable pub report : CircuitBreaker → Attempt → Sending → CircuitBreaker × Option DeliveryError
report b a returns = (on_success b, none)
report b a raises = (on_failure b a.later, some channel_error)
report b a hangs = (b, some timed_out)

unfoldable pub send : CircuitBreaker → Attempt → CircuitBreaker × Option DeliveryError
send b a =
    let (b', admitted) = admit b a.now in
    if admitted then report b' a a.sending else (b', some circuit_open)

-- What the loop leaves behind: the notification, the breaker, the waits between the attempts
-- without their jitter, and whether the id goes to the dead-letter queue, where there is one.
pub record Outcome : Type 0 where
  pub notification : Notification
  pub breaker : CircuitBreaker
  pub delays : List ℕ
  pub dead_letter : Bool

unfoldable pub give_up : Notification → CircuitBreaker → List ℕ → DeliveryError → Outcome
give_up n b delays last_error = record {
  notification = record n { status = failed; error = some last_error };
  breaker = b;
  delays = delays;
  dead_letter = true;
}

unfoldable pub succeed : Notification → CircuitBreaker → List ℕ → ℕ → Outcome
succeed n b delays now = record {
  notification = record n { status = sent; sent_at = some now; error = none };
  breaker = b;
  delays = delays;
  dead_letter = false;
}

-- `if attempt < config.MAX_RETRIES`: the wait, as far as it is not random.
unfoldable pub backoff : Config → ℕ → List ℕ
backoff cfg attempt =
    if ltb attempt cfg.max_retries then (cfg.retry_base_delay * 2 ^ (attempt - 1)) ∷ [] else []

-- The loop, with the attempts left and the number of the next one.
unfoldable pub deliver_loop :
    Config
    → (ℕ → Attempt)
    → ℕ
    → ℕ
    → Notification
    → CircuitBreaker
    → List ℕ
    → DeliveryError
    → Outcome
deliver_loop cfg attempts zero attempt n b delays last_error = give_up n b delays last_error
deliver_loop cfg attempts (suc left) attempt n b delays last_error =
    let n' : Notification = record n { attempts = attempt } in
    let (b', error) = send b (attempts attempt) in
    elim error [
      | none ↦ succeed n' b' delays (attempts attempt).later
      | some e ↦
          deliver_loop cfg attempts left (attempt + 1) n' b' (delays ++ backoff cfg attempt) e
    ]

unfoldable pub deliver : Config → (ℕ → Attempt) → Notification → CircuitBreaker → Outcome
deliver cfg attempts n b = deliver_loop cfg attempts cfg.max_retries 1 n b [] no_error
