-- ===== src/Tasks/Tests.antt =====
-- A table in memory as an instance of the interface, and runs of the scheduler's theorems on it.
use sd_practice_qr_code_gene.Base.{
  ℕ, zero, suc, ◌+◌, ◌/◌, ◌≤◌, ◌<◌, Bool, true, false, Option, none, some, List, [], ◌∷◌, ◌≡◌, refl,
  arith, ◌==◌, if◌then◌else◌, ltb, All, Bool-cases, inl, inr, ℕ_discrete, sym,
}
use mathlib.Core.Path.{subst}
use sd_practice_qr_code_gene.Base.Text.{codes}
use sd_practice_qr_code_gene.Tasks.{pending, running, Job, Calendar, JobTable}
use sd_practice_qr_code_gene.Tasks.Handlers.{cancelled_job, handle_cancel_task, is_finished}
use sd_practice_qr_code_gene.Tasks.Scheduler.{watch_one, run_job, execute}
use sd_practice_qr_code_gene.Tasks.Cancelling.{Cancels, cancel-Cancels, cancel-lost}

abbrev pub find_row : List Job → ℕ → Option Job
find_row [] i = none
find_row (j ∷ js) i = let rest = find_row js i in if j.id == i then some j else rest

-- One more than the largest id.
abbrev pub free_id : List Job → ℕ
free_id [] = 1
free_id (j ∷ js) = let rest = free_id js in if ltb j.id rest then rest else j.id + 1

-- One row more, if there is one and it passes.
abbrev pub keep : Option Job → (Job → Bool) → List Job → List Job
keep none p rest = rest
keep (some j) p rest = if p j then j ∷ rest else rest

-- The rows with ids below a bound.
abbrev pub rows_below : List Job → (Job → Bool) → ℕ → List Job
rows_below js p zero = []
rows_below js p (suc n) = keep (find_row js n) p (rows_below js p n)

pub find_row-id : (js : List Job) (i : ℕ) (j : Job) → find_row js i ≡ some j → j.id ≡ i
find_row-id [] i j e = absurd (ground arith)
find_row-id (k ∷ js) i j e = ground (arith, find_row-id js i j)

pub find_row-free : (js : List Job) (i : ℕ) → free_id js ≤ i → find_row js i ≡ none
find_row-free [] i h = refl
find_row-free (j ∷ js) i h = ground (arith, find_row-free js i)

All-keep :
    (P : Job → Type 0) (o : Option Job) (p : Job → Bool) (rest : List Job)
    → All P rest
    → ((j : Job) → o ≡ some j → p j ≡ true → P j)
    → All P (keep o p rest)
All-keep P none p rest h own = h
All-keep P (some j) p rest h own = elim (Bool-cases (p j)) [
  | inl passes ↦ rw (passes, All) (own j refl passes, h)
  | inr fails ↦ rw (fails, All) h
]

All-rest :
    (P : Job → Type 0) (o : Option Job) (p : Job → Bool) (rest : List Job)
    → All P (keep o p rest)
    → All P rest
All-rest P none p rest h = h
All-rest P (some j) p rest h = elim (Bool-cases (p j)) [
  | inl passes ↦ (rw (passes, All) at h).1
  | inr fails ↦ rw (fails, All) at h
]

keep_missed :
    (o : Option Job) (p : Job → Bool) (rest : List Job) (i : ℕ) (j : Job)
    → o ≡ some j
    → j.id ≡ i
    → All (λ k. ¬ (k.id ≡ i)) (keep o p rest)
    → p j ≡ false
keep_missed o p rest i j e same h = elim (Bool-cases (p j)) [
  | inl passes ↦ absurd ((rw (e, passes, All) at h).0 same)
  | inr fails ↦ fails
]

pub rows_below_sound :
    (js : List Job) (p : Job → Bool) (n : ℕ)
    → All (λ j. (find_row js j.id ≡ some j) × (p j ≡ true)) (rows_below js p n)
rows_below_sound js p zero = tt
rows_below_sound js p (suc n) =
    All-keep _ (find_row js n) p (rows_below js p n) (rows_below_sound js p n) (λ j found passes.
      (subst (λ k. find_row js k ≡ some j) (sym (find_row-id js n j found)) found, passes))

pub rows_below_misses :
    (js : List Job) (p : Job → Bool) (n i : ℕ) (j : Job)
    → find_row js i ≡ some j
    → i < n
    → All (λ k. ¬ (k.id ≡ i)) (rows_below js p n)
    → p j ≡ false
rows_below_misses js p zero i j e h all = absurd (omega arith)
rows_below_misses js p (suc n) i j e h all = elim (ℕ_discrete i n) [
  | yes here_ ↦
      keep_missed (find_row js n) p (rows_below js p n) i j (rw (← here_) e) (find_row-id js i j e)
        all
  | no other ↦
      rows_below_misses js p n i j e (omega arith)
        (All-rest _ (find_row js n) p (rows_below js p n) all)
]

abbrev pub test_table : JobTable
test_table = record {
  State = List Job;
  find = find_row;
  next_id = free_id;
  add = λ s j. record j { id = free_id s } ∷ s;
  save = λ s j. j ∷ s;
  select = λ s p. rows_below s p (free_id s);
  newest_first = λ s. rows_below s (λ j. true) (free_id s);
  find_id = find_row-id;
  find_next = λ s. find_row-free s (free_id s) (omega arith);
  find-add = λ s j i. refl;
  find-save = λ s j i. refl;
  select_sound = λ s p. rows_below_sound s p (free_id s);
  select_misses = λ s p i j e all. rows_below_misses s p (free_id s) i j e (below s i j e) all;
}
  where
    below : (s : List Job) (i : ℕ) (j : Job) → find_row s i ≡ some j → i < free_id s
    below s i j e = ground (arith, find_row-free s i)

-- Hours since the epoch, and no text is a time but the empty one.
abbrev pub test_calendar : Calendar
test_calendar = record {
  fromisoformat =
      λ s. elim s [ [] ↦ some (record { wall = 7200; stored = 7200 }) | c ∷ rest ↦ none ];
  isoformat = λ t. [];
  get_time_bucket = λ t. t / 3600;
}

abbrev pub job : Job
job = record {
  id = 1;
  time_bucket = 2;
  description = codes "report";
  scheduled_at = 7200;
  status = pending;
  result = none;
}

abbrev pub one_job : List Job
one_job = job ∷ []

cancel-Cancels_example :
    Cancels test_table one_job 1
      (handle_cancel_task test_table one_job 1).0
      (handle_cancel_task test_table one_job 1).1
cancel-Cancels_example = cancel-Cancels test_table one_job 1

cancel-lost_example :
    ((handle_cancel_task test_table one_job 1).1 ≡ cancelled_job 1)
    × (test_table.find
          (run_job test_table
            (watch_one test_table ((handle_cancel_task test_table one_job 1).0, []) job).0
            (test_table.find
              (watch_one test_table ((handle_cancel_task test_table one_job 1).0, []) job).0
              1))
          1
        ≡ some (execute (record job { status = running })))
unfolding is_finished
cancel-lost_example = cancel-lost test_table one_job [] 1 job refl refl
