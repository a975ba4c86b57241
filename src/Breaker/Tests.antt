-- ===== src/Breaker/Tests.antt =====
-- Runs of the breaker's theorems.
use sd_practice_qr_code_gene.Base.{◌≡◌, true, some, none, [], ◌∷◌, refl, arith}
use sd_practice_qr_code_gene.Breaker.{CircuitBreaker, closed, open_, init, call, circuit_open}
use sd_practice_qr_code_gene.Breaker.Safety.{admits, fails, run, IsValid, run-IsValid, init-IsValid}
use sd_practice_qr_code_gene.Breaker.Trips.{call-open}

-- One failure so far, of three.
abbrev one_failure : CircuitBreaker
one_failure = record {
  threshold = 3;
  recovery_s = 30;
  state = closed;
  consecutive_failures = 1;
  opened_at = none;
}

abbrev tripped : CircuitBreaker
tripped = record one_failure { state = open_; opened_at = some 100; consecutive_failures = 0 }

run-IsValid_example :
    IsValid (run (init 2 30) (admits 1 ∷ admits 2 ∷ fails 3 ∷ fails 4 ∷ admits 50 ∷ []))
run-IsValid_example =
    run-IsValid (init 2 30) (admits 1 ∷ admits 2 ∷ fails 3 ∷ fails 4 ∷ admits 50 ∷ [])
      (init-IsValid 2 30 (omega arith))

call-open_example : call tripped 110 111 true ≡ (tripped, circuit_open)
call-open_example = call-open tripped 110 111 100 true refl refl
