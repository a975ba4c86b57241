-- ===== src/Notify/Startup/Tests.antt =====
-- A run of a start: Redis answers the third ping.
use sd_practice_qr_code_gene.Base.{ℕ, true, false, ◌≡◌, ◌==◌, if◌then◌else◌}
use sd_practice_qr_code_gene.Notify.Startup.{
  Ping, ready, not_ready, goes_on, fails, worker_wait, api_wait,
}
use sd_practice_qr_code_gene.Notify.Startup.Waits.{Waits, wait_for_redis-Waits}

abbrev third : ℕ → Ping
third i = if i == 3 then ready else not_ready

wait_for_redis-Waits_example :
    Waits third 1 60 fails (worker_wait third)
    × Waits third 1 30 goes_on (api_wait true third)
    × (api_wait false third ≡ (goes_on, 0))
wait_for_redis-Waits_example = wait_for_redis-Waits third
