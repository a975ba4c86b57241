-- ===== src/Tasks/Watching.antt =====
-- A pass of the watcher.
use sd_practice_qr_code_gene.Base.{ℕ, Bool, false, Option, none, some, List, [], ◌∷◌, ◌==◌, ◌||◌}
use sd_practice_qr_code_gene.Tasks.{queued, Job}

-- Whether the id is that of a job of the list.
has_id : ℕ → List Job → Bool
has_id i [] = false
has_id i (j ∷ js) = (j.id == i) || has_id i js

-- A row that is marked as queued.
as_queued : Option Job → Option Job
as_queued none = none
as_queued (some j) = some (record j { status = queued })
