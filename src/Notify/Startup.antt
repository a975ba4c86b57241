-- ===== src/Notify/Startup.antt =====
-- The start of the API and of a worker: notification_system/app/main.py, worker.py and queue.py. What
-- each ping meets is an argument.
mod Tests
pub mod Waits
pub mod Ensures
use sd_practice_qr_code_gene.Base.{ℕ, zero, suc, ◌+◌, Bool, true, false, Option, none, some, ◌≡◌}
use sd_practice_qr_code_gene.Notify.Queue.{Stream, critical_stream, delivery_stream}

-- `BusyLoadingError` and `ConnectionError` are `not_ready`.
pub data Ping : Type 0 where
  ready not_ready other_error : Ping

-- How the loop over the attempts is left.
pub data Waited : Type 0 where
  connected gave_up raised : Waited

abbrev pub slept : Waited × ℕ → Waited × ℕ
slept (waited, sleeps) = (waited, suc sleeps)

-- The loop, with the attempts left and the number of the next one; it counts its sleeps.
unfoldable pub wait_loop : (ℕ → Ping) → ℕ → ℕ → Waited × ℕ
wait_loop pings zero attempt = (gave_up, 0)
wait_loop pings (suc left) attempt =
    let rest = wait_loop pings left (attempt + 1) in
    elim (pings attempt) [
      | ready ↦ (connected, 0)
      | not_ready ↦ slept rest
      | other_error ↦ (raised, 0)
    ]

pub data Start : Type 0 where
  goes_on fails : Start

-- `_wait_for_redis` of worker.py, for one of its servers: it raises when it gives up.
unfoldable pub worker_start : Waited → Start
worker_start connected = goes_on
worker_start gave_up = fails
worker_start raised = fails

unfoldable pub worker_wait : (ℕ → Ping) → Start × ℕ
worker_wait pings = let (waited, sleeps) = wait_loop pings 60 1 in (worker_start waited, sleeps)

-- `_wait_for_redis` of main.py: it returns when it gives up, and at once without REDIS_URL.
unfoldable pub api_start : Waited → Start
api_start connected = goes_on
api_start gave_up = goes_on
api_start raised = fails

unfoldable pub api_wait : Bool → (ℕ → Ping) → Start × ℕ
api_wait false pings = (goes_on, 0)
api_wait true pings = let (waited, sleeps) = wait_loop pings 30 1 in (api_start waited, sleeps)

-- XGROUP CREATE, which is refused (`none`) where the stream has the group.
pub record Groups : Type 1 where
  pub State : Type 0
  pub has_group : State → Stream → Bool
  pub xgroup_create : State → Stream → Option State
  pub create_refused : (s : State) (k : Stream) → has_group s k ≡ true → xgroup_create s k ≡ none
  pub create_made :
      (s : State) (k : Stream)
      → has_group s k ≡ false
      → (s' : State) × (xgroup_create s k ≡ some s')
        × (has_group s' k ≡ true)
        × ((j : Stream) → has_group s j ≡ true → has_group s' j ≡ true)

module _ (G : Groups) where
  -- `except ResponseError: pass`
  unfoldable pub ensure_on : G.State → Stream → G.State
  ensure_on s k = elim (G.xgroup_create s k) [ none ↦ s | some s' ↦ s' ]

  unfoldable pub ensure_group : G.State → G.State
  ensure_group s = ensure_on (ensure_on s delivery_stream) critical_stream
