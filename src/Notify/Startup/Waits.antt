-- ===== src/Notify/Startup/Waits.antt =====
-- How a wait for Redis ends.
use sd_practice_qr_code_gene.Base.{
  true, false, ℕ, zero, suc, ◌+◌, ◌≤◌, ◌<◌, ◌≡◌, refl, arith, ◌⊎◌, inl, inr, ℕ_discrete,
}
use mathlib.Core.Path.{subst}
use sd_practice_qr_code_gene.Notify.Startup.{
  Ping, ready, not_ready, other_error, Waited, connected, gave_up, raised, slept, wait_loop, Start,
  goes_on, fails, worker_wait, worker_start, api_wait, api_start,
}

-- Redis was not ready in the attempts from one on and before another.
abbrev pub Busy : (ℕ → Ping) → ℕ → ℕ → Type 0
Busy pings first last = (i : ℕ) → first ≤ i → i < last → pings i ≡ not_ready

-- The first attempt that meets anything else ends the loop, and if there is none, so does the last.
data Ends (pings : ℕ → Ping) (first left : ℕ) : Waited × ℕ → Type 0 where
  at_ready :
      (n : ℕ)
      → n < left
      → Busy pings first (first + n)
      → pings (first + n) ≡ ready
      → Ends pings first left (connected, n)
  at_error :
      (n : ℕ)
      → n < left
      → Busy pings first (first + n)
      → pings (first + n) ≡ other_error
      → Ends pings first left (raised, n)
  at_end : Busy pings first (first + left) → Ends pings first left (gave_up, left)

-- A start that waits for Redis, with what becomes of it and its sleeps; `unanswered` is what becomes
-- of it if no attempt of the `left` ones decides.
pub data Waits (pings : ℕ → Ping) (first left : ℕ) (unanswered : Start) : Start × ℕ → Type 0 where
  answered :
      (n : ℕ)
      → n < left
      → Busy pings first (first + n)
      → pings (first + n) ≡ ready
      → Waits pings first left unanswered (goes_on, n)
  refused :
      (n : ℕ)
      → n < left
      → Busy pings first (first + n)
      → pings (first + n) ≡ other_error
      → Waits pings first left unanswered (fails, n)
  exhausted : Busy pings first (first + left) → Waits pings first left unanswered (unanswered, left)

Ping-cases : (p : Ping) → (p ≡ ready) ⊎ ((p ≡ not_ready) ⊎ (p ≡ other_error))
Ping-cases ready = inl refl
Ping-cases not_ready = inr (inl refl)
Ping-cases other_error = inr (inr refl)

no_attempts : (pings : ℕ → Ping) (first : ℕ) → Busy pings first (first + 0)
no_attempts pings first i low high = absurd (omega arith)

one_more :
    (pings : ℕ → Ping) (first n : ℕ)
    → pings first ≡ not_ready
    → Busy pings (first + 1) (first + 1 + n)
    → Busy pings first (first + suc n)
one_more pings first n e busy i low high = elim (ℕ_discrete first i) [
  | yes same ↦ subst (λ k. pings k ≡ not_ready) same e
  | no other ↦ busy i (omega arith) (omega arith)
]

slept-Ends :
    (pings : ℕ → Ping) (first left : ℕ) (r : Waited × ℕ)
    → pings first ≡ not_ready
    → Ends pings (first + 1) left r
    → Ends pings first (suc left) (slept r)
slept-Ends pings first left _ e (at_ready n h busy at) =
    at_ready (suc n) (omega arith) (one_more pings first n e busy)
      (subst (λ k. pings k ≡ ready) (omega arith) at)
slept-Ends pings first left _ e (at_error n h busy at) =
    at_error (suc n) (omega arith) (one_more pings first n e busy)
      (subst (λ k. pings k ≡ other_error) (omega arith) at)
slept-Ends pings first left _ e (at_end busy) = at_end (one_more pings first left e busy)

wait_loop-Ends :
    (pings : ℕ → Ping) (left first : ℕ) → Ends pings first left (wait_loop pings left first)
unfolding wait_loop
wait_loop-Ends pings zero first = at_end (no_attempts pings first)
wait_loop-Ends pings (suc left) first = elim (Ping-cases (pings first)) [
  | inl e ↦
      rw (e, wait_loop)
        (at_ready 0 (omega arith) (no_attempts pings first)
          (subst (λ k. pings k ≡ ready) (omega arith) e))
  | inr (inl e) ↦
      rw (e, wait_loop)
        (slept-Ends pings first left (wait_loop pings left (first + 1)) e
          (wait_loop-Ends pings left (first + 1)))
  | inr (inr e) ↦
      rw (e, wait_loop)
        (at_error 0 (omega arith) (no_attempts pings first)
          (subst (λ k. pings k ≡ other_error) (omega arith) e))
]

worker_start-Waits :
    (pings : ℕ → Ping) (first left : ℕ) (r : Waited × ℕ)
    → Ends pings first left r
    → Waits pings first left fails (worker_start r.0, r.1)
unfolding worker_start
worker_start-Waits pings first left _ (at_ready n h busy at) = answered n h busy at
worker_start-Waits pings first left _ (at_error n h busy at) = refused n h busy at
worker_start-Waits pings first left _ (at_end busy) = exhausted busy

api_start-Waits :
    (pings : ℕ → Ping) (first left : ℕ) (r : Waited × ℕ)
    → Ends pings first left r
    → Waits pings first left goes_on (api_start r.0, r.1)
unfolding api_start
api_start-Waits pings first left _ (at_ready n h busy at) = answered n h busy at
api_start-Waits pings first left _ (at_error n h busy at) = refused n h busy at
api_start-Waits pings first left _ (at_end busy) = exhausted busy

-- The first ping that meets anything but a Redis that is not ready decides how a start waits, with
-- a sleep for each ping before it. Of 60 pings in a worker, and 30 in the API with REDIS_URL set: a
-- ready Redis lets both go on, and any other error makes both fail; if no ping decides, the worker
-- fails after its 60 sleeps, and the API goes on after its 30. Without REDIS_URL the API goes on at
-- once.
pub wait_for_redis-Waits :
    (pings : ℕ → Ping)
    → Waits pings 1 60 fails (worker_wait pings)
      × Waits pings 1 30 goes_on (api_wait true pings)
      × (api_wait false pings ≡ (goes_on, 0))
unfolding worker_wait api_wait
wait_for_redis-Waits pings = (
  worker_start-Waits pings 1 60 (wait_loop pings 60 1) (wait_loop-Ends pings 60 1),
  api_start-Waits pings 1 30 (wait_loop pings 30 1) (wait_loop-Ends pings 30 1),
  refl,
)
