-- ===== src/Tasks/Cancelling.antt =====
-- What a cancellation does to the job, on every branch, and how the watcher can undo it.
use sd_practice_qr_code_gene.Base.{
  ℕ, ap, sym, ◌∙◌, true, false, none, some, List, ◌≡◌, ◌==◌, if◌then◌else◌, arith, refl,
  Option-cases, inl, inr, Bool-cases,
}
use sd_practice_qr_code_gene.Tasks.{running, queued, cancelled, Job, JobTable}
use sd_practice_qr_code_gene.Tasks.Handlers.{
  Reply, cancelled_job, not_found, cannot_cancel, is_finished, cancel_row, handle_cancel_task,
}
use sd_practice_qr_code_gene.Tasks.Scheduler.{
  is_cancelled, set_status, watch_one, execute, run_job, start_job, finish_started, finish_job,
}

module _ (T : JobTable) where
  find-save_self : (db : T.State) (j : Job) → T.find (T.save db j) j.id ≡ some j
  find-save_self db j = ground (arith, T.find-save db j j.id)

  cancel-open :
      (db : T.State) (i : ℕ) (j : Job)
      → T.find db i ≡ some j
      → is_finished j.status ≡ false
      → handle_cancel_task T db i
        ≡ (T.save db (record j { status = cancelled }), cancelled_job j.id)
  unfolding handle_cancel_task cancel_row
  cancel-open db i j e h = rw (e, handle_cancel_task) (rw (h, cancel_row))

  find-cancelled :
      (db : T.State) (i : ℕ) (j : Job)
      → T.find db i ≡ some j
      → T.find (T.save db (record j { status = cancelled })) i
        ≡ some (record j { status = cancelled })
  find-cancelled db i j e =
      ground (arith, T.find-save db (record j { status = cancelled }) i, T.find_id db i j)

  -- The worker on a row that is marked.
  run_job-cancelled :
      (db : T.State) (i : ℕ) (j : Job)
      → T.find db i ≡ some (record j { status = cancelled })
      → run_job T db (T.find db i) ≡ db
  unfolding run_job is_cancelled start_job finish_started
  run_job-cancelled db i j e = rw e

  find-cancel :
      (db : T.State) (j : Job) (k : ℕ)
      → T.find (T.save db (record j { status = cancelled })) k
        ≡ (if j.id == k then some (record j { status = cancelled }) else T.find db k)
  find-cancel db j k = T.find-save db (record j { status = cancelled }) k

-- What the caller of a cancellation is told, and what becomes of the table.
pub data Cancels (T : JobTable) (db : T.State) (i : ℕ) (db' : T.State) (r : Reply) : Type 0 where
  missing : T.find db i ≡ none → db' ≡ db → r ≡ not_found i → Cancels T db i db' r
  finished :
      (j : Job)
      → T.find db i ≡ some j
      → is_finished j.status ≡ true
      → db' ≡ db
      → r ≡ cannot_cancel j.status
      → Cancels T db i db' r
  marked :
      (j : Job)
      → T.find db i ≡ some j
      → is_finished j.status ≡ false
      → r ≡ cancelled_job i
      → ((k : ℕ)
          → T.find db' k
            ≡ (if j.id == k then some (record j { status = cancelled }) else T.find db k))
      → run_job T db' (T.find db' i) ≡ db'
      → Cancels T db i db' r

-- A cancellation answers with an error and changes nothing if the job is missing or finished.
-- Otherwise the row is marked, the other rows stay, and the worker that then meets the job leaves
-- the table as it is.
pub cancel-Cancels :
    (T : JobTable) (db : T.State) (i : ℕ)
    → Cancels T db i (handle_cancel_task T db i).0 (handle_cancel_task T db i).1
unfolding handle_cancel_task cancel_row
cancel-Cancels T db i = elim (Option-cases (T.find db i)) [
  | inl e ↦ rw (e, handle_cancel_task) (missing e refl refl)
  | inr (j, e) ↦ elim (Bool-cases (is_finished j.status)) [
    | inl done ↦ rw (e, handle_cancel_task) (rw (done, cancel_row) (finished j e done refl refl))
    | inr active ↦ rw (cancel-open T db i j e active) (
        marked j e active (ap cancelled_job (T.find_id db i j e)) (find-cancel T db j)
          (run_job-cancelled T _ i j (find-cancelled T db i j e)))
  ]
]

module _ (T : JobTable) (db : T.State) (i : ℕ) (j : Job) (found : T.find db i ≡ some j) where
  -- The table after the cancellation, after the watcher's commit, and after the worker's two.
  marked_db : T.State
  marked_db = T.save db (record j { status = cancelled })

  queued_db : T.State
  queued_db = set_status T marked_db j.id queued

  find-queued : T.find queued_db i ≡ some (record j { status = queued })
  unfolding queued_db marked_db set_status
  find-queued =
      let same = T.find_id db i j found in
      rw (same, find-cancelled T db i j found, set_status)
        (ground (arith, T.find-save marked_db (record j { status = queued }) i, same))

  find-run :
      T.find (run_job T queued_db (some (record j { status = queued }))) i
      ≡ some (execute (record j { status = running }))
  unfolding run_job is_cancelled start_job finish_started finish_job execute
  find-run =
      let started = T.save queued_db (record j { status = running }) in
      let done = execute (record j { status = running }) in
      let found_again = find-save_self T queued_db (record j { status = running }) in
      rw (found_again, finish_job)
        (ap (T.find (T.save started done)) (sym (T.find_id db i j found))
          ∙ find-save_self T started done)

-- A cancellation that comes between the watcher's query and its commit for the job is lost: the
-- job is queued, and the worker completes it although the client was told that it is cancelled.
pub cancel-lost :
    (T : JobTable) (db : T.State) (queue : List ℕ) (i : ℕ) (j : Job)
    → T.find db i ≡ some j
    → is_finished j.status ≡ false
    → ((handle_cancel_task T db i).1 ≡ cancelled_job i)
      × (T.find
            (run_job T
              (watch_one T ((handle_cancel_task T db i).0, queue) j).0
              (T.find (watch_one T ((handle_cancel_task T db i).0, queue) j).0 i))
            i
          ≡ some (execute (record j { status = running })))
unfolding watch_one queued_db marked_db
cancel-lost T db queue i j e h =
    rw (cancel-open T db i j e h)
      (ap cancelled_job (T.find_id db i j e), rw (find-queued T db i j e) (find-run T db i j e))
