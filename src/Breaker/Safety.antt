-- ===== src/Breaker/Safety.antt =====
-- The breaker under any interleaving of the calls of several threads.
use sd_practice_qr_code_gene.Base.{
  ℕ, ◌+◌, ◌<◌, none, List, [], ◌∷◌, ◌≡◌, ◌≢◌, refl, if◌then◌else◌, arith, length,
}
use sd_practice_qr_code_gene.Breaker.{
  closed, half_open, CircuitBreaker, init, admit, on_success, on_failure,
}

-- What a thread does to the breaker: the test before a call, or the report after it.
pub data Event : Type 0 where
  admits : ℕ → Event
  succeeds : Event
  fails : ℕ → Event

pub step : CircuitBreaker → Event → CircuitBreaker
unfolding admit on_success on_failure
step b (admits now) = (admit b now).0
step b succeeds = on_success b
step b (fails now) = on_failure b now

pub run : CircuitBreaker → List Event → CircuitBreaker
run b [] = b
run b (e ∷ es) = run (step b e) es

-- The time of opening is known unless the breaker is closed, and the count stays below the
-- threshold.
pub record IsValid (b : CircuitBreaker) : Type 0 where
  pub below : b.consecutive_failures < b.threshold
  pub when_closed : b.state ≡ closed → b.opened_at ≡ none
  pub when_open : b.state ≢ closed → b.opened_at ≢ none

step-IsValid : (b : CircuitBreaker) (e : Event) → IsValid b → IsValid (step b e)
unfolding step
step-IsValid b (admits now) v = record {
  below = ground (arith, v.below);
  when_closed = λ h. ground (arith, v.when_closed);
  when_open = λ h. ground (arith, v.when_open);
}
step-IsValid b succeeds v = record {
  below = ground (arith, v.below);
  when_closed = λ h. ground arith;
  when_open = λ h. ground arith;
}
step-IsValid b (fails now) v = record {
  below = ground (arith, v.below);
  when_closed = λ h. ground (arith, v.when_closed);
  when_open = λ h. ground (arith, v.when_open);
}

-- A well-formed breaker stays well-formed, whatever the threads do and in whatever order.
pub run-IsValid : (b : CircuitBreaker) (es : List Event) → IsValid b → IsValid (run b es)
unfolding run
run-IsValid b [] v = v
run-IsValid b (e ∷ es) v = run-IsValid (step b e) es (step-IsValid b e v)

pub init-IsValid : (threshold recovery_s : ℕ) → 0 < threshold → IsValid (init threshold recovery_s)
unfolding init
init-IsValid t r h = record { below = h; when_closed = λ e. refl; when_open = λ e. absurd (e refl) }

-- How many of the calls that start at the given times are let through before any of them reports.
pub admitted : CircuitBreaker → List ℕ → ℕ
admitted b [] = 0
admitted b (now ∷ later) =
    let (b', through) = admit b now in (if through then 1 else 0) + admitted b' later

-- A half-open breaker lets every call through, not one probe, until one of them reports.
pub half_open-admitted :
    (b : CircuitBreaker) (times : List ℕ) → b.state ≡ half_open → admitted b times ≡ length times
unfolding admitted admit
half_open-admitted b [] h = refl
half_open-admitted b (now ∷ later) h = ground (arith, half_open-admitted b later h)
