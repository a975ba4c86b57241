-- ===== src/Lru/Tests.antt =====
-- Runs of the cache's theorems: a cache of one entry, and calls that fill it, hit, evict and miss.
use sd_practice_qr_code_gene.Base.{◌+◌, ◌≤◌, none, some, List, [], ◌∷◌, ◌≡◌, false, refl, arith}
use sd_practice_qr_code_gene.Base.Int.{pos}
use sd_practice_qr_code_gene.Base.Text.{codes}
use sd_practice_qr_code_gene.Lru
use sd_practice_qr_code_gene.Lru.{overflows, LruCache, stats, found, cache_miss}
use sd_practice_qr_code_gene.Lru.Refines.{Refines}
use sd_practice_qr_code_gene.Lru.Runs.{
  Call, gets, sets, deletes, Outcome, run, abstract_run, nothing_stored, run-Refines,
}
use sd_practice_qr_code_gene.Lru.Runs.Counts.{gets_in, run-stats}

fits_none : overflows none ≡ false
unfolding overflows
fits_none = refl

fits_one : overflows (some (pos 1)) ≡ false
unfolding overflows
fits_one = refl

abbrev calls : List Call
calls =
    sets (codes "a") (codes "1") (none, fits_none) 5
    ∷ gets (codes "a") 6 7
    ∷ sets (codes "b") (codes "2") (some (pos 1), fits_one) 8
    ∷ gets (codes "a") 9 9
    ∷ deletes (codes "b")
    ∷ []

run-Refines_example : Refines (run (Lru.init 1) calls) (abstract_run (nothing_stored 1) calls)
run-Refines_example = run-Refines 1 calls

abbrev after : LruCache
after = (run-Refines 1 calls).after

abbrev outcomes : List Outcome
outcomes = (abstract_run (nothing_stored 1) calls).1

run-stats_example :
    ((stats after).size ≤ 1)
    × ((stats after).capacity ≡ 1)
    × ((stats after).hits + (stats after).misses ≡ gets_in calls)
run-stats_example = run-stats 1 calls after outcomes (omega arith) (run-Refines 1 calls).returns
