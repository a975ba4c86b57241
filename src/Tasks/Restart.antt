-- ===== src/Tasks/Restart.antt =====
-- The queue is in memory: what becomes of a row that was queued when the process ends.
mod Tests
use sd_practice_qr_code_gene.Base.{
  ℕ, Bool, true, false, Option, none, some, List, [], ◌∷◌, ◌++◌, ◌≡◌, ◌⊎◌, inl, inr, refl, arith,
  sym, ◌∙◌, ap, ◌==◌, if◌then◌else◌, Option-cases, Bool-cases, All, All-append, Has,
}
use mathlib.Core.Path.{subst}
use mathlib.Core.Option.{none-ne-some, some-injective}
use sd_practice_qr_code_gene.Base.Text.{Text}
use sd_practice_qr_code_gene.Tasks.{queued, Job, Calendar, JobTable}
use sd_practice_qr_code_gene.Tasks.Handlers.{
  handle_create_task, handle_cancel_task, cancel_row, new_job, is_finished,
}
use sd_practice_qr_code_gene.Tasks.Scheduler.{
  is_pending, is_cancelled, is_due, find_due_jobs, set_status, watch_one, watch_all, watch, run_job,
  work, execute, started, start_job, finish_started, finish_job,
}

-- What goes on after a restart, one part after another: requests, passes of the watcher, and the
-- worker, whose two commits for a job come together or with other parts between them. The table is the database's, and the queue is new.
pub data Running (C : Calendar) (T : JobTable) (i : ℕ) (db : T.State)
    : T.State → List ℕ → Type 0 where
  restarted : Running C T i db db []
  creates :
      {u : T.State} {queue : List ℕ} (d t : Text)
      → Running C T i db u queue
      → Running C T i db (handle_create_task C T u d t).0 queue
  -- a request for another job
  cancels :
      {u : T.State} {queue : List ℕ} (k : ℕ)
      → ¬ (k ≡ i)
      → Running C T i db u queue
      → Running C T i db (handle_cancel_task T u k).0 queue
  watches :
      {u : T.State} {queue : List ℕ} (now : ℕ)
      → Running C T i db u queue
      → Running C T i db (watch T C now (u, queue)).0 (watch T C now (u, queue)).1
  works :
      {u v : T.State} {queue rest : List ℕ}
      → Running C T i db u queue
      → work T (u, queue) ≡ some (v, rest)
      → Running C T i db v rest
  starts :
      {u : T.State} {queue : List ℕ} (k : ℕ)
      → Running C T i db u (k ∷ queue)
      → Running C T i db (started T u (T.find u k)) queue
  -- the second commit, for another job, since this one is never started
  finishes :
      {u : T.State} {queue : List ℕ} (k : ℕ)
      → ¬ (k ≡ i)
      → Running C T i db u queue
      → Running C T i db (finish_job T u k) queue

not_due_queued : (C : Calendar) (now : ℕ) (k : Job) → k.status ≡ queued → ¬ (is_due C now k ≡ true)
unfolding is_due is_pending
not_due_queued C now k waiting due = ground arith

module _ (C : Calendar) (T : JobTable) (i : ℕ) (j : Job) where
  -- The row is queued, and its id is not on the queue.
  record IsStuck (u : T.State) (queue : List ℕ) : Type 0 where
    row : T.find u i ≡ some j
    absent : All (λ k. ¬ (k ≡ i)) queue

  not_row : (u : T.State) (k : ℕ) (row : Job) → ¬ (k ≡ i) → T.find u k ≡ some row → ¬ (row.id ≡ i)
  not_row u k row other e s = other (sym (T.find_id u k row e) ∙ s)

  find-save_other : (u : T.State) (k : Job) → ¬ (k.id ≡ i) → T.find (T.save u k) i ≡ T.find u i
  find-save_other u k other = ground (arith, T.find-save u k i)

  -- An id without a row is not that of the row.
  apart : (u : T.State) (k : ℕ) → T.find u k ≡ none → T.find u i ≡ some j → (k == i) ≡ false
  apart u k gone e = elim (Bool-cases (k == i)) [
    | inr other ↦ other
    | inl same ↦
        let own : k ≡ i = ground (arith, same) in
        absurd (none-ne-some j (sym gone ∙ ap (T.find u) own ∙ e))
  ]

  find-create :
      (u : T.State) (d t : Text)
      → T.find u i ≡ some j
      → T.find (handle_create_task C T u d t).0 i ≡ some j
  unfolding handle_create_task
  find-create u d t e = elim (Option-cases (C.fromisoformat t)) [
    | inl bad ↦ rw (bad, handle_create_task) e
    | inr (dt, good) ↦
        rw (good, handle_create_task)
          (T.find-add u (new_job C T d dt) i
            ∙ (rw (apart u (T.next_id u) (T.find_next u) e, if◌then◌else◌) e))
  ]

  find-cancel_other :
      (u : T.State) (k : ℕ) → ¬ (k ≡ i) → T.find (handle_cancel_task T u k).0 i ≡ T.find u i
  unfolding handle_cancel_task cancel_row
  find-cancel_other u k other = elim (Option-cases (T.find u k)) [
    | inl e ↦ rw (e, handle_cancel_task) refl
    | inr (row, e) ↦
        rw (e, handle_cancel_task)
          (elim (Bool-cases (is_finished row.status)) [
            | inl done ↦ rw (done, cancel_row) refl
            | inr active ↦ rw (active, cancel_row) (find-save_other u _ (not_row u k row other e))
          ])
  ]

  find-set_other :
      (u : T.State) (k : ℕ) → ¬ (k ≡ i) → T.find (set_status T u k queued) i ≡ T.find u i
  unfolding set_status
  find-set_other u k other = elim (Option-cases (T.find u k)) [
    | inl e ↦ rw (e, set_status) refl
    | inr (row, e) ↦ rw (e, set_status) (find-save_other u _ (not_row u k row other e))
  ]

  watch_all-IsStuck :
      (u : T.State) (queue : List ℕ) (js : List Job)
      → All (λ k. ¬ (k.id ≡ i)) js
      → IsStuck u queue
      → IsStuck (watch_all T (u, queue) js).0 (watch_all T (u, queue) js).1
  unfolding watch_all watch_one
  watch_all-IsStuck u queue [] a v = v
  watch_all-IsStuck u queue (k ∷ js) (other, a) v =
      watch_all-IsStuck (set_status T u k.id queued) (queue ++ k.id ∷ []) js a (record {
        row = find-set_other u k.id other ∙ v.row;
        absent = All-append _ queue (k.id ∷ []) v.absent (other, tt);
      })

  finish-other : (u : T.State) (k : ℕ) → ¬ (k ≡ i) → T.find (finish_job T u k) i ≡ T.find u i
  unfolding finish_job execute
  finish-other u k other = elim (Option-cases (T.find u k)) [
    | inl e ↦ rw (e, finish_job) refl
    | inr (row, e) ↦ rw (e, finish_job) (find-save_other u _ (not_row u k row other e))
  ]

  start-other : (u : T.State) (k : ℕ) → ¬ (k ≡ i) → T.find (started T u (T.find u k)) i ≡ T.find u i
  unfolding started start_job
  start-other u k other = elim (Option-cases (T.find u k)) [
    | inl e ↦ rw e refl
    | inr (row, e) ↦ rw e (elim (Bool-cases (is_cancelled row.status)) [
      | inl off ↦ rw (off, started, start_job) refl
      | inr on ↦ rw (on, started, start_job) (find-save_other u _ (not_row u k row other e))
    ])
  ]

  run-other : (u : T.State) (k : ℕ) → ¬ (k ≡ i) → T.find (run_job T u (T.find u k)) i ≡ T.find u i
  unfolding run_job start_job finish_started
  run-other u k other = elim (Option-cases (T.find u k)) [
    | inl e ↦ rw e refl
    | inr (row, e) ↦ rw e (elim (Bool-cases (is_cancelled row.status)) [
      | inl off ↦ rw (off, start_job) refl
      | inr on ↦
          rw (on, start_job)
            (finish-other _ row.id (not_row u k row other e)
              ∙ find-save_other u _ (not_row u k row other e))
    ])
  ]

  module _ (own : j.status ≡ queued) where
    not_found_due :
        (u : T.State) (now : ℕ) (js : List Job)
        → T.find u i ≡ some j
        → All (λ k. (T.find u k.id ≡ some k) × (is_due C now k ≡ true)) js
        → All (λ k. ¬ (k.id ≡ i)) js
    unfolding is_due is_pending
    not_found_due u now [] e a = tt
    not_found_due u now (k ∷ js) e ((found, due), a) = (
      (λ same.
          let row : k ≡ j = some-injective k j (sym found ∙ ap (T.find u) same ∙ e) in
          let waiting : k.status ≡ queued = ap (λ x. x.status) row ∙ own in
          not_due_queued C now k waiting due),
      not_found_due u now js e a,
    )

    work-IsStuck :
        (u v : T.State) (queue rest : List ℕ)
        → work T (u, queue) ≡ some (v, rest)
        → IsStuck u queue
        → IsStuck v rest
    unfolding work
    work-IsStuck u v [] rest e w = absurd (none-ne-some (v, rest) e)
    work-IsStuck u v (k ∷ queue) rest e w =
        let same = some-injective _ (v, rest) e in
        subst (λ p. IsStuck p.0 p.1) same
          (record { row = run-other u k w.absent.0 ∙ w.row; absent = w.absent.1 })

    Running-IsStuck :
        {db u : T.State} {queue : List ℕ}
        → T.find db i ≡ some j
        → Running C T i db u queue
        → IsStuck u queue
    unfolding watch find_due_jobs
    Running-IsStuck e restarted = record { row = e; absent = tt }
    Running-IsStuck e (creates {u} d t before) =
        let w = Running-IsStuck e before in
        record { row = find-create u d t w.row; absent = w.absent }
    Running-IsStuck e (cancels {u} k other before) =
        let w = Running-IsStuck e before in
        record { row = find-cancel_other u k other ∙ w.row; absent = w.absent }
    Running-IsStuck e (watches {u} {queue} now before) =
        let w = Running-IsStuck e before in
        watch_all-IsStuck u queue (T.select u (is_due C now))
          (not_found_due u now _ w.row (T.select_sound u (is_due C now))) w
    Running-IsStuck e (works {u} {v} {queue} {rest} before step) =
        work-IsStuck u v queue rest step (Running-IsStuck e before)
    Running-IsStuck e (starts {u} {queue} k before) =
        let w = Running-IsStuck e before in
        record { row = start-other u k w.absent.0 ∙ w.row; absent = w.absent.1 }
    Running-IsStuck e (finishes {u} k other before) =
        let w = Running-IsStuck e before in
        record { row = finish-other u k other ∙ w.row; absent = w.absent }

-- A job that is queued in the table when the process ends, and with it the queue: whatever is
-- created, whichever other jobs are cancelled or finished, and however often the watcher and the
-- worker run then, the row stays as it is, and the id is not put on the queue again.
pub Running-find :
    (C : Calendar) (T : JobTable) (db u : T.State) (queue : List ℕ) (i : ℕ) (j : Job)
    → T.find db i ≡ some j
    → j.status ≡ queued
    → Running C T i db u queue
    → (T.find u i ≡ some j) × All (λ k. ¬ (k ≡ i)) queue
Running-find C T db u queue i j e own r =
    let w = Running-IsStuck C T i j own e r in (w.row, w.absent)
