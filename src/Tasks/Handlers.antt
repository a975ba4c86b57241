-- ===== src/Tasks/Handlers.antt =====
-- The tool handlers of chatgpt_task/scaffold/app/mcp_server.py, and the endpoints of api.py and
-- mcp_sse.py that call them.
use sd_practice_qr_code_gene.Base.{ℕ, Bool, true, false, none, some, List}
use sd_practice_qr_code_gene.Base.Text.{Text}
use sd_practice_qr_code_gene.Tasks.{
  Status, pending, completed, failed, cancelled, Job, Moment, Calendar, JobTable,
}

-- The dictionaries that the handlers return, by their keys.
pub data Reply : Type 0 where
  created : ℕ → Status → ℕ → Reply
  details : Job → Reply
  listed : List Job → Reply
  cancelled_job : ℕ → Reply
  not_found : ℕ → Reply
  cannot_cancel : Status → Reply
  unknown_tool : Text → Reply
  -- what `fromisoformat` and a call with the wrong arguments raise
  value_error type_error : Reply

-- `job.status in ("completed", "failed")`
unfoldable pub is_finished : Status → Bool
is_finished completed = true
is_finished failed = true
is_finished _ = false

module _ (C : Calendar) (T : JobTable) where
  unfoldable pub new_job : Text → Moment → Job
  new_job description scheduled_at = record {
    id = 0;
    time_bucket = C.get_time_bucket scheduled_at.wall;
    description = description;
    scheduled_at = scheduled_at.stored;
    status = pending;
    result = none;
  }

  -- The answer has the time as the row that is read again has it.
  unfoldable pub handle_create_task : T.State → Text → Text → T.State × Reply
  handle_create_task db description scheduled_at = elim (C.fromisoformat scheduled_at) [
    | none ↦ (db, value_error)
    | some dt ↦ (T.add db (new_job description dt), created (T.next_id db) pending dt.stored)
  ]

module _ (T : JobTable) where
  unfoldable pub handle_get_status : T.State → ℕ → Reply
  handle_get_status db job_id = elim (T.find db job_id) [
    | none ↦ not_found job_id
    | some job ↦ details job
  ]

  unfoldable pub handle_list_tasks : T.State → Reply
  handle_list_tasks db = listed (T.newest_first db)

  unfoldable pub cancel_row : T.State → Job → T.State × Reply
  cancel_row db job = elim (is_finished job.status) [
    | true ↦ (db, cannot_cancel job.status)
    | false ↦ (T.save db (record job { status = cancelled }), cancelled_job job.id)
  ]

  unfoldable pub handle_cancel_task : T.State → ℕ → T.State × Reply
  handle_cancel_task db job_id = elim (T.find db job_id) [
    | none ↦ (db, not_found job_id)
    | some job ↦ cancel_row db job
  ]

-- The status code of an endpoint's answer: `success`, or that of an `error` entry.
unfoldable pub http_status : ℕ → ℕ → Reply → ℕ
http_status success error (not_found i) = error
http_status success error (cannot_cancel s) = error
http_status success error (unknown_tool n) = error
-- an exception that no handler catches
http_status success error value_error = 500
http_status success error type_error = 500
http_status success error _ = success

module _ (C : Calendar) (T : JobTable) where
  unfoldable pub create_task : T.State → Text → Text → T.State × ℕ
  create_task db description scheduled_at =
      let (db', r) = handle_create_task C T db description scheduled_at in
      (db', http_status 201 201 r)

module _ (T : JobTable) where
  unfoldable pub list_tasks : T.State → ℕ × Reply
  list_tasks db = let r = handle_list_tasks T db in (http_status 200 200 r, r)

  unfoldable pub get_task : T.State → ℕ → ℕ
  get_task db job_id = http_status 200 404 (handle_get_status T db job_id)

  unfoldable pub cancel_task : T.State → ℕ → T.State × ℕ
  cancel_task db job_id =
      let (db', r) = handle_cancel_task T db job_id in (db', http_status 200 400 r)

-- mcp_sse.py; the sessions that it opens and closes are the table.
unfoldable pub task_create : (C : Calendar) (T : JobTable) → T.State → Text → Text → T.State × Reply
task_create C T db description scheduled_at = handle_create_task C T db description scheduled_at

module _ (T : JobTable) where
  unfoldable pub task_list : T.State → Reply
  task_list db = handle_list_tasks T db

  unfoldable pub task_status : T.State → ℕ → Reply
  task_status db job_id = handle_get_status T db job_id

  unfoldable pub task_cancel : T.State → ℕ → T.State × Reply
  task_cancel db job_id = handle_cancel_task T db job_id
