-- ===== src/Tasks/Scheduler.antt =====
-- chatgpt_task/scaffold/app/scheduler.py: the watcher and the worker. `watch_one`, `start_job` and
-- `finish_job` end with a commit each.
use sd_practice_qr_code_gene.Base.{
  ℕ, Bool, true, false, Option, none, some, List, [], ◌∷◌, ◌++◌, leb, ◌&&◌,
}
use sd_practice_qr_code_gene.Base.Text.{codes}
use sd_practice_qr_code_gene.Tasks.{
  Status, pending, queued, running, completed, cancelled, Job, Calendar, JobTable,
}

-- `Job.status == "pending"`
unfoldable pub is_pending : Status → Bool
is_pending pending = true
is_pending _ = false

unfoldable pub is_cancelled : Status → Bool
is_cancelled cancelled = true
is_cancelled _ = false

-- The filter of `find_due_jobs`.
unfoldable pub is_due : Calendar → ℕ → Job → Bool
is_due C current_time job =
    leb job.time_bucket (C.get_time_bucket current_time)
    && leb job.scheduled_at current_time
    && is_pending job.status

unfoldable pub find_due_jobs : Calendar → (T : JobTable) → ℕ → T.State → List Job
find_due_jobs C T current_time db = T.select db (is_due C current_time)

unfoldable pub execute : Job → Job
execute job = record job {
  result = some (codes "Executed: " ++ job.description);
  status = completed;
}

module _ (T : JobTable) where
  -- `job.status = …; db.commit()`: only this column of the row is written.
  unfoldable pub set_status : T.State → ℕ → Status → T.State
  set_status db job_id s = elim (T.find db job_id) [
    | none ↦ db
    | some job ↦ T.save db (record job { status = s })
  ]

  -- One round of the `for` loop of `watcher_loop`, with the queue.
  unfoldable pub watch_one : T.State × List ℕ → Job → T.State × List ℕ
  watch_one (db, queue) job = (set_status db job.id queued, queue ++ job.id ∷ [])

  unfoldable pub watch_all : T.State × List ℕ → List Job → T.State × List ℕ
  watch_all s [] = s
  watch_all s (job ∷ jobs) = watch_all (watch_one s job) jobs

  -- A pass of the watcher that no other step interrupts.
  unfoldable pub watch : Calendar → ℕ → T.State × List ℕ → T.State × List ℕ
  watch C now (db, queue) = watch_all (db, queue) (find_due_jobs C T now db)

  -- The worker's first commit for a row, which it leaves alone where this is cancelled.
  unfoldable pub start_job : T.State → Option Job → Option (T.State × Job)
  start_job db none = none
  start_job db (some job) = elim (is_cancelled job.status) [
    | true ↦ none
    | false ↦ some (T.save db (record job { status = running }), record job { status = running })
  ]

  -- The table after it.
  unfoldable pub started : T.State → Option Job → T.State
  started db found = elim (start_job db found) [ none ↦ db | some p ↦ p.0 ]

  -- Its second commit, for the row that it has started: the description is read again after the
  -- first commit, and only the result and the status are written.
  unfoldable pub finish_job : T.State → ℕ → T.State
  finish_job db job_id = elim (T.find db job_id) [ none ↦ db | some job ↦ T.save db (execute job) ]

  unfoldable pub finish_started : T.State → Option (T.State × Job) → T.State
  finish_started db none = db
  finish_started db (some (started, job)) = finish_job started job.id

  -- The body of `worker_loop` for one id, with nothing between its commits.
  unfoldable pub run_job : T.State → Option Job → T.State
  run_job db found = finish_started db (start_job db found)

  -- `job_queue.get()` waits while the queue is empty.
  unfoldable pub work : T.State × List ℕ → Option (T.State × List ℕ)
  work (db, []) = none
  work (db, job_id ∷ queue) = some (run_job db (T.find db job_id), queue)
