-- ===== src/Breaker.antt =====
-- notification_system/app/circuit_breaker.py. The lock makes the test before a call and the update
-- after it atomic, each by itself; the clock's readings are arguments. Times are natural numbers of
-- any unit.
mod Tests
pub mod Safety
pub mod Trips
use sd_practice_qr_code_gene.Base.{
  ℕ, ◌+◌, ◌-◌, Bool, true, false, Option, none, some, leb, if◌then◌else◌, ◌||◌,
}
use mathlib.Core.Option

pub data State : Type 0 where
  closed open_ half_open : State

pub record CircuitBreaker : Type 0 where
  pub threshold : ℕ
  pub recovery_s : ℕ
  pub state : State
  pub consecutive_failures : ℕ
  pub opened_at : Option ℕ

unfoldable pub init : ℕ → ℕ → CircuitBreaker
init threshold recovery_s = record {
  threshold = threshold;
  recovery_s = recovery_s;
  state = closed;
  consecutive_failures = 0;
  opened_at = none;
}

-- `elapsed`, which the clock keeps from being negative
unfoldable pub elapsed : CircuitBreaker → ℕ → ℕ
elapsed b now = now - Option.get_or b.opened_at 0

-- The test of `call` under the lock: the breaker, and whether the call goes through.
unfoldable pub admit : CircuitBreaker → ℕ → CircuitBreaker × Bool
unfolding elapsed
admit b now = elim b.state [
  | closed ↦ (b, true)
  | half_open ↦ (b, true)
  | open_ ↦
      if leb b.recovery_s (elapsed b now)
      then (record b { state = half_open }, true)
      else (b, false)
]

unfoldable pub on_success : CircuitBreaker → CircuitBreaker
on_success b = record b { consecutive_failures = 0; state = closed; opened_at = none }

-- `self._state == _State.HALF_OPEN`
unfoldable pub is_half_open : State → Bool
is_half_open half_open = true
is_half_open _ = false

unfoldable pub on_failure : CircuitBreaker → ℕ → CircuitBreaker
unfolding is_half_open
on_failure b now =
    let n = b.consecutive_failures + 1 in
    if is_half_open b.state || leb b.threshold n
    then record b { state = open_; opened_at = some now; consecutive_failures = 0 }
    else record b { consecutive_failures = n }

-- How a call ends: rejected, or with the target's own outcome.
pub data Outcome : Type 0 where
  circuit_open : Outcome
  succeeded failed : Outcome

unfoldable pub settle : Bool → CircuitBreaker → ℕ → CircuitBreaker × Outcome
settle true b later = (on_success b, succeeded)
settle false b later = (on_failure b later, failed)

-- `call`, where the target succeeds or raises as `works` says, and no other thread comes between.
unfoldable pub call : CircuitBreaker → ℕ → ℕ → Bool → CircuitBreaker × Outcome
unfolding admit settle on_success on_failure
call b now later works =
    let (b', admitted) = admit b now in
    if admitted then settle works b' later else (b', circuit_open)
