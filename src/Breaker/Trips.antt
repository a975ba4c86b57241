-- ===== src/Breaker/Trips.antt =====
-- When the breaker opens, and what it does while it is open.
use sd_practice_qr_code_gene.Base.{
  ℕ, ◌+◌, ◌-◌, ◌<◌, Bool, false, none, some, List, [], ◌∷◌, ◌≡◌, if◌then◌else◌, arith, length, ltb,
}
use sd_practice_qr_code_gene.Breaker.{
  closed, open_, CircuitBreaker, circuit_open, succeeded, failed, call,
}

-- Calls one after another, each with the time of its start and that of its failure.
pub failing_calls : CircuitBreaker → List (ℕ × ℕ) → CircuitBreaker
failing_calls b [] = b
failing_calls b ((now, later) ∷ rest) = failing_calls (call b now later false).0 rest

-- While the failures in a row stay below the threshold, a closed breaker counts each of them and
-- stays closed.
pub failing_calls-closed :
    (b : CircuitBreaker) (calls : List (ℕ × ℕ))
    → b.state ≡ closed
    → b.consecutive_failures + length calls < b.threshold
    → failing_calls b calls
      ≡ record b { consecutive_failures = b.consecutive_failures + length calls }
unfolding failing_calls call
failing_calls-closed b [] c h = ground arith
failing_calls-closed b ((now, later) ∷ rest) c h =
    let one : (call b now later false).0
        ≡ record b { consecutive_failures = b.consecutive_failures + 1 } =
      ground arith in
    rw one (
      ground (
        arith,
        failing_calls-closed (record b { consecutive_failures = b.consecutive_failures + 1 }) rest,
      ))

-- When one failure is missing to the threshold after a row of failing calls of a closed breaker, one
-- more failing call opens it at the time of that failure, with the count reset.
pub failing_calls-open :
    (b : CircuitBreaker) (calls : List (ℕ × ℕ)) (now later : ℕ)
    → b.state ≡ closed
    → b.consecutive_failures + length calls + 1 ≡ b.threshold
    → call (failing_calls b calls) now later false
      ≡ (record b { state = open_; opened_at = some later; consecutive_failures = 0 }, failed)
unfolding call
failing_calls-open b calls now later c h =
    rw (failing_calls-closed b calls c (omega arith)) (ground arith)

-- While it is open, a call before the recovery time is rejected and changes nothing; a later one is
-- a probe, which closes the breaker if it succeeds and opens it anew if it fails.
pub call-open :
    (b : CircuitBreaker) (now later opened : ℕ) (works : Bool)
    → b.state ≡ open_
    → b.opened_at ≡ some opened
    → call b now later works ≡ (
        if ltb (now - opened) b.recovery_s
        then (b, circuit_open)
        else if works
        then (record b { state = closed; opened_at = none; consecutive_failures = 0 }, succeeded)
        else (record b { state = open_; opened_at = some later; consecutive_failures = 0 }, failed))
unfolding call
call-open b now later opened works s o = ground arith
