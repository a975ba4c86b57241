-- ===== src/Tasks.antt =====
-- The task scheduler, chatgpt_task/scaffold/app: the rows of models.py, and what the program uses of
-- the database and of `datetime`, as interfaces. `created_at` and `updated_at` are never read, and
-- are left out. Times are seconds.
pub mod Tests
pub mod Handlers
pub mod Tools
pub mod Restart
pub mod Scheduler
pub mod Watching
pub mod Cancelling
use sd_practice_qr_code_gene.Base.{
  ℕ, ◌≤◌, Bool, true, false, Option, none, some, List, ◌≡◌, ◌==◌, if◌then◌else◌, leb, All,
}
use sd_practice_qr_code_gene.Base.Text.{Text}

pub data Status : Type 0 where
  pending queued running completed failed cancelled : Status

pub record Job : Type 0 where
  pub id : ℕ
  pub time_bucket : ℕ
  pub description : Text
  pub scheduled_at : ℕ
  pub status : Status
  pub result : Option Text

-- What `fromisoformat` makes of a text: `wall`, the date and time as they are written, and `stored`,
-- what the column without a time zone keeps of it. For a text with an offset these differ.
pub record Moment : Type 0 where
  pub wall : ℕ
  pub stored : ℕ

-- `datetime`: `get_time_bucket` is `strftime("%Y%m%d%H")` of a date and time as written, read as a
-- number. From the year 1000 on all buckets have ten digits, and the database compares them as
-- numbers.
pub record Calendar : Type 0 where
  pub fromisoformat : Text → Option Moment
  pub isoformat : ℕ → Text
  pub get_time_bucket : ℕ → ℕ

-- The table `jobs`. `add` gives the row the next id; `select` is a query with a filter.
pub record JobTable : Type 1 where
  pub State : Type 0
  pub find : State → ℕ → Option Job
  pub next_id : State → ℕ
  pub add : State → Job → State
  pub save : State → Job → State
  pub select : State → (Job → Bool) → List Job
  pub newest_first : State → List Job
  pub find_id : (s : State) (i : ℕ) (j : Job) → find s i ≡ some j → j.id ≡ i
  pub find_next : (s : State) → find s (next_id s) ≡ none
  pub find-add :
      (s : State) (j : Job) (i : ℕ)
      → find (add s j) i ≡ (if next_id s == i then some (record j { id = next_id s }) else find s i)
  pub find-save :
      (s : State) (j : Job) (i : ℕ) → find (save s j) i ≡ (if j.id == i then some j else find s i)
  pub select_sound :
      (s : State) (p : Job → Bool) → All (λ j. (find s j.id ≡ some j) × (p j ≡ true)) (select s p)
  -- a query misses no row that passes its filter
  pub select_misses :
      (s : State) (p : Job → Bool) (i : ℕ) (j : Job)
      → find s i ≡ some j
      → All (λ k. ¬ (k.id ≡ i)) (select s p)
      → p j ≡ false
