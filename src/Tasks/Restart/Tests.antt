-- ===== src/Tasks/Restart/Tests.antt =====
-- A run after a restart: a request, a pass of the watcher, and the worker.
use sd_practice_qr_code_gene.Base.{ℕ, List, [], ◌∷◌, ◌≡◌, some, refl, All}
use mathlib.Core.Path.{subst}
use sd_practice_qr_code_gene.Base.Text.{codes}
use sd_practice_qr_code_gene.Tasks.{queued, Job}
use sd_practice_qr_code_gene.Tasks.Tests.{test_table, test_calendar, job}
use sd_practice_qr_code_gene.Tasks.Handlers.{new_job, handle_create_task}
use sd_practice_qr_code_gene.Tasks.Scheduler.{
  watch, watch_all, watch_one, find_due_jobs, is_due, is_pending, set_status, work, run_job,
}
use sd_practice_qr_code_gene.Tasks.Restart.{
  Running, restarted, creates, watches, works, Running-find,
}

abbrev queued_job : Job
queued_job = record job { status = queued }

abbrev created : List Job
created = (handle_create_task test_calendar test_table (queued_job ∷ []) (codes "other") []).0

abbrev watched : List Job × List ℕ
watched = watch test_table test_calendar 7300 (created, [])

one_found : watched.1 ≡ 2 ∷ []
unfolding handle_create_task new_job watch watch_all watch_one find_due_jobs is_due is_pending
    set_status
one_found = refl

abbrev worked : List Job
worked = run_job test_table watched.0 (test_table.find watched.0 2)

worked_one : work test_table (watched.0, 2 ∷ []) ≡ some (worked, [])
unfolding work
worked_one = refl

after : Running test_calendar test_table 1 (queued_job ∷ []) worked []
after =
    works
      (subst (λ queue. Running test_calendar test_table 1 (queued_job ∷ []) watched.0 queue)
        one_found (watches 7300 (creates (codes "other") [] restarted)))
      worked_one

Running-find_example :
    (test_table.find worked 1 ≡ some queued_job) × All {A = ℕ} (λ k. ¬ (k ≡ 1)) []
Running-find_example =
    Running-find test_calendar test_table (queued_job ∷ []) worked [] 1 queued_job refl refl after
