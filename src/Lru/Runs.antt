-- ===== src/Lru/Runs.antt =====
-- Any calls on a new cache.
pub mod Counts
use sd_practice_qr_code_gene.Base.{
  ℕ, suc, ◌≢◌, ◌+◌, ◌<◌, ◌≤◌, Bool, true, false, Option, none, some, List, [], ◌∷◌, ◌≡◌, leb, ltb,
  ◌==◌, if◌then◌else◌, ite, arith, refl, map, length, ap, sym, ◌∙◌,
}
use sd_practice_qr_code_gene.Base.Int.{ℤ}
use sd_practice_qr_code_gene.Base.Text.{Text, codes, text_dec}
use sd_practice_qr_code_gene.Lru
use sd_practice_qr_code_gene.Lru.{
  LruCache, Answer, overflows, is_expired, sentinels, lookup, tail_ref, head_ref, Stats, stats,
}
use sd_practice_qr_code_gene.Lru.Chain.{has, Distinct, next_of, prev_of}
use sd_practice_qr_code_gene.Lru.Chain.Inner.{full}
use sd_practice_qr_code_gene.Lru.Links.{IsLinked, Entry}
use sd_practice_qr_code_gene.Lru.Recent
use sd_practice_qr_code_gene.Lru.Recent.{Recent, find, drop_key, drop_last, use_entry, push}
use sd_practice_qr_code_gene.Lru.Stored.{IsStored}
use sd_practice_qr_code_gene.Lru.Refines.{Represents, Refines, get-Refines, delete-Refines}
use sd_practice_qr_code_gene.Lru.Refines.Evicts.{same_length}
use sd_practice_qr_code_gene.Lru.Refines.Sets.{set-Represents}

-- A ttl that a float holds; others raise.
abbrev pub Ttl : Type 0
Ttl = (ttl : Option ℤ) × (overflows ttl ≡ false)

pub data Call : Type 0 where
  gets : Text → ℕ → ℕ → Call
  sets : Text → Text → Ttl → ℕ → Call
  deletes : Text → Call

pub data Outcome : Type 0 where
  answered : Answer → Outcome
  stored : Outcome
  deleted : Bool → Outcome

abbrev pub and_then {ℓ κ} : {A : Type ℓ} {B : Type κ} → Option A → (A → Option B) → Option B
and_then none f = none
and_then (some a) f = f a

-- One call; `none` is an exception.
unfoldable pub step : LruCache → Call → Option (LruCache × Outcome)
step c (gets key now later) = and_then (Lru.get c key now later) (λ p. some (p.0, answered p.1))
step c (sets key value ttl now) = and_then (Lru.set c key value ttl.0 now) (λ c'. some (c', stored))
step c (deletes key) = and_then (Lru.delete c key) (λ p. some (p.0, deleted p.1))

unfoldable pub run : LruCache → List Call → Option (LruCache × List Outcome)
run c [] = some (c, [])
run c (call ∷ calls) =
    and_then (step c call) (λ p. and_then (run p.0 calls) (λ q. some (q.0, p.1 ∷ q.1)))

-- The same calls on the list of entries.
unfoldable pub abstract_step : Recent → Call → Recent × Outcome
abstract_step s (gets key now later) = let (s', a) = Recent.get s key now later in (s', answered a)
abstract_step s (sets key value ttl now) = (Recent.set s key value ttl.0 now, stored)
abstract_step s (deletes key) = let (s', b) = Recent.delete s key in (s', deleted b)

unfoldable pub abstract_run : Recent → List Call → Recent × List Outcome
abstract_run s [] = (s, [])
abstract_run s (call ∷ calls) =
    let (s', o) = abstract_step s call in let (s'', os) = abstract_run s' calls in (s'', o ∷ os)

abbrev pub nothing_stored : ℕ → Recent
nothing_stored capacity = record {
  capacity = capacity;
  items = [];
  hits = 0;
  misses = 0;
  evictions = 0;
}

sentinels-IsLinked : IsLinked sentinels 2 (full [])
unfolding sentinels next_of prev_of has
sentinels-IsLinked = record {
  next = λ y low. ground arith;
  prev = λ y low. ground arith;
  distinct = (refl, (refl, tt));
  allocated = λ y inside. ground arith;
}

pub init-Represents : (capacity : ℕ) → Represents (Lru.init capacity) (nothing_stored capacity)
unfolding Lru.init
init-Represents capacity = record {
  stored = record {
    inner = [];
    linked = sentinels-IsLinked;
    listed = refl;
    sound = λ k r e. absurd (unfold lookup in cc);
    complete = λ r inside. absurd (unfold has in cc);
    dict = tt;
    size = refl;
  };
  capacity = refl;
  hits = refl;
  misses = refl;
  evictions = refl;
}

step-Refines :
    (c : LruCache) (s : Recent) (call : Call)
    → Represents c s
    → Refines (step c call) (abstract_step s call)
unfolding step abstract_step
step-Refines c s (gets key now later) v =
    let w = get-Refines c s v key now later in
    record { after = w.after; returns = rw (w.returns) refl; represents = w.represents }
step-Refines c s (sets key value ttl now) v =
    let (c', runs, rep) = set-Represents c s key value ttl.0 now v ttl.1 in
    record { after = c'; returns = rw runs refl; represents = rep }
step-Refines c s (deletes key) v =
    let w = delete-Refines c s v key in
    record { after = w.after; returns = rw (w.returns) refl; represents = w.represents }

run_from-Refines :
    (c : LruCache) (s : Recent) (calls : List Call)
    → Represents c s
    → Refines (run c calls) (abstract_run s calls)
unfolding run abstract_run
run_from-Refines c s [] v = record { after = c; returns = refl; represents = v }
run_from-Refines c s (call ∷ calls) v =
    let w = step-Refines c s call v in
    let u = run_from-Refines w.after (abstract_step s call).0 calls w.represents in
    record {
      after = u.after;
      returns = rw (w.returns) (rw (u.returns) refl);
      represents = u.represents;
    }

-- Whatever the capacity, and whatever calls are made on a new cache, with TTLs that a float holds, no
-- exception is raised: no link is missing, each call
-- answers as the list of entries in the order of use does, and nodes and `dict` stand for that
-- list.
pub run-Refines :
    (capacity : ℕ) (calls : List Call)
    → Refines (run (Lru.init capacity) calls) (abstract_run (nothing_stored capacity) calls)
run-Refines capacity calls =
    run_from-Refines (Lru.init capacity) (nothing_stored capacity) calls (init-Represents capacity)
