-- ===== src/Notify/Worker/Tests.antt =====
-- Runs of the worker's theorems, with numbers as the ids of messages.
use sd_practice_qr_code_gene.Base.{ℕ, none, some, List, [], ◌∷◌, ◌≡◌}
use sd_practice_qr_code_gene.Base.Text.{codes}
use sd_practice_qr_code_gene.Notify.Store
use sd_practice_qr_code_gene.Notify.RedisStore.{save_status}
use sd_practice_qr_code_gene.Notify.RedisStore.Tests.{
  Keys, test_redis, test_formats, one_job, given_up, memory, one-Writes, two-Writes,
}
use sd_practice_qr_code_gene.Notify.Worker.{Message, Round, run}
use sd_practice_qr_code_gene.Notify.Worker.Rounds.{
  IsReadable, Writes-IsReadable, each, jobs_over, run-each,
}

abbrev store : Keys
store = save_status test_redis test_formats one_job given_up

abbrev msgs : List (Message ℕ)
msgs = (1, some (codes "n1")) ∷ (2, none) ∷ (3, some (codes "n9")) ∷ []

store-IsReadable : IsReadable test_redis test_formats store
store-IsReadable =
    Writes-IsReadable test_redis test_formats 60 store (Store.save_status memory given_up)
      two-Writes

before-IsReadable : IsReadable test_redis test_formats one_job
before-IsReadable = Writes-IsReadable test_redis test_formats 60 one_job memory one-Writes

-- The recovered notification is delivered, in vain, and read once more.
abbrev rounds : List (Round test_redis ℕ)
rounds =
    record {
      now = 40;
      after_check = 41;
      critical_pages = [];
      delivery_pages = (one_job, msgs) ∷ [];
      read_store = store;
      critical_msgs = [];
      normal_msgs = ((4, some (codes "n1")) ∷ []) ∷ [];
    }
    ∷ record {
      now = 50;
      after_check = 51;
      critical_pages = [];
      delivery_pages = [];
      read_store = store;
      critical_msgs = ((5, some (codes "n1")) ∷ []) ∷ [];
      normal_msgs = [];
    }
    ∷ []

run-each_example :
    run test_redis test_formats 30 5 rounds
    ≡ each test_redis test_formats (jobs_over test_redis test_formats 30 5 rounds)
run-each_example = run-each test_redis test_formats 30 5 rounds (
  record { critical = tt; others = (before-IsReadable, tt); read = store-IsReadable },
  (record { critical = tt; others = tt; read = store-IsReadable }, tt),
)
