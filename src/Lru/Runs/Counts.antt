-- ===== src/Lru/Runs/Counts.antt =====
-- About the size and the counters after any calls on a new cache.
use sd_practice_qr_code_gene.Base.{
  ℕ, suc, ◌+◌, ◌<◌, ◌≤◌, Option, some, List, [], ◌∷◌, ◌≡◌, arith, refl, length, Option-cases, inl,
  inr, ap, ◌∙◌, sym,
}
use sd_practice_qr_code_gene.Base.Int.{ℤ}
use native.Mathlib.Nat.{add-zero}
use mathlib.Core.Path.{subst}
use mathlib.Core.Option.{some-injective}
use sd_practice_qr_code_gene.Lru.Refines.{Represents}
use sd_practice_qr_code_gene.Base.Text.{Text}
use sd_practice_qr_code_gene.Lru
use sd_practice_qr_code_gene.Lru.{LruCache, Stats, stats}
use sd_practice_qr_code_gene.Lru.Links.{Entry}
use sd_practice_qr_code_gene.Lru.Recent
use sd_practice_qr_code_gene.Lru.Recent.{Recent, find, drop_key, drop_last, use_entry, push}
use sd_practice_qr_code_gene.Lru.Refines.Evicts.{same_length}
use sd_practice_qr_code_gene.Lru.Runs.{
  Call, gets, sets, deletes, Outcome, run, abstract_step, abstract_run, nothing_stored, run-Refines,
}

-- How many of the calls are look-ups.
pub gets_in : List Call → ℕ
gets_in [] = 0
gets_in (gets key now later ∷ calls) = suc (gets_in calls)
gets_in (sets key value ttl now ∷ calls) = gets_in calls
gets_in (deletes key ∷ calls) = gets_in calls

length-drop_last : (e : Entry) (es : List Entry) → length (drop_last (e ∷ es)) ≡ length es
length-drop_last e [] = refl
length-drop_last e (x ∷ es) = omega (arith, length-drop_last x es)

length-drop_key : (k : Text) (es : List Entry) → length (drop_key k es) ≤ length es
unfolding drop_key
length-drop_key k [] = omega arith
length-drop_key k (x ∷ es) = ground (arith, length-drop_key k es)

length-drop_key_found :
    (k : Text) (es : List Entry) (e : Entry)
    → find k es ≡ some e
    → length (drop_key k es) + 1 ≡ length es
unfolding drop_key find
length-drop_key_found k [] e h = absurd (cc)
length-drop_key_found k (x ∷ es) e h = ground (arith, length-drop_key_found k es e)

-- What any call leaves true of the list.
record IsCounted (s : Recent) (capacity gets_done : ℕ) : Type 0 where
  bounded : length s.items ≤ capacity
  same_capacity : s.capacity ≡ capacity
  counted : s.hits + s.misses ≡ gets_done

length-evict :
    (s : Recent) (items : List Entry)
    → s.items ≡ items
    → 0 < s.capacity
    → length s.items ≤ s.capacity
    → length (Recent.evict s).items + 1 ≤ s.capacity
unfolding Recent.evict
length-evict s [] e positive bound = ground arith
length-evict s (x ∷ es) e positive bound =
    ground (arith, length-drop_last x es, ap (λ l. length (drop_last l)) e, ap length e)

evict_counts :
    (s : Recent)
    → ((Recent.evict s).capacity ≡ s.capacity)
      × ((Recent.evict s).hits ≡ s.hits)
      × ((Recent.evict s).misses ≡ s.misses)
unfolding Recent.evict
evict_counts s = (ground arith, ground arith, ground arith)

module _ (s : Recent) (capacity n : ℕ) (positive : 0 < capacity) (v : IsCounted s capacity n) where
  get-IsCounted :
      (key : Text) (now later : ℕ) → IsCounted (Recent.get s key now later).0 capacity (n + 1)
  unfolding Recent.get use_entry
  get-IsCounted key now later = elim (Option-cases (find key s.items)) [
    | inl e ↦
        rw (e, Recent.get)
          (record {
            bounded = v.bounded;
            same_capacity = v.same_capacity;
            counted = omega (arith, v.counted);
          })
    | inr (x, e) ↦
        let less = length-drop_key_found key s.items x e in
        rw (e, Recent.get)
          (record {
            bounded = ground (arith, v.bounded);
            same_capacity = ground (arith, v.same_capacity);
            counted = ground (arith, v.counted);
          })
  ]

  set-IsCounted :
      (key value : Text) (ttl : Option ℤ) (now : ℕ)
      → IsCounted (Recent.set s key value ttl now) capacity n
  unfolding Recent.set push
  set-IsCounted key value ttl now = elim (Option-cases (find key s.items)) [
    | inl e ↦
        let (cap, hits, misses) = evict_counts s in
        rw (e, Recent.set)
          (record {
            bounded = ground (arith, length-evict s s.items refl, v.bounded, v.same_capacity);
            same_capacity = cap ∙ v.same_capacity;
            counted = omega (arith, hits, misses, v.counted);
          })
    | inr (x, e) ↦
        let less = length-drop_key_found key s.items x e in
        rw (e, Recent.set)
          (record {
            bounded = omega (arith, v.bounded);
            same_capacity = v.same_capacity;
            counted = v.counted;
          })
  ]

  delete-IsCounted : (key : Text) → IsCounted (Recent.delete s key).0 capacity n
  unfolding Recent.delete
  delete-IsCounted key = record {
    bounded = ground (arith, length-drop_key key s.items, v.bounded);
    same_capacity = ground (arith, v.same_capacity);
    counted = ground (arith, v.counted);
  }

run-IsCounted :
    (s : Recent) (calls : List Call) (capacity n : ℕ)
    → 0 < capacity
    → IsCounted s capacity n
    → IsCounted (abstract_run s calls).0 capacity (n + gets_in calls)
unfolding abstract_run abstract_step gets_in
run-IsCounted s [] capacity n positive v = rw (add-zero) v
run-IsCounted s (gets key now later ∷ calls) capacity n positive v =
    let same_count : n + 1 + gets_in calls ≡ n + suc (gets_in calls) = omega arith in
    subst (λ m. IsCounted (abstract_run (Recent.get s key now later).0 calls).0 capacity m)
      same_count
      (run-IsCounted (Recent.get s key now later).0 calls capacity (n + 1) positive
        (get-IsCounted s capacity n positive v key now later))
run-IsCounted s (sets key value ttl now ∷ calls) capacity n positive v =
    run-IsCounted (Recent.set s key value ttl.0 now) calls capacity n positive
      (set-IsCounted s capacity n positive v key value ttl.0 now)
run-IsCounted s (deletes key ∷ calls) capacity n positive v =
    run-IsCounted (Recent.delete s key).0 calls capacity n positive
      (delete-IsCounted s capacity n positive v key)

-- After any calls, with TTLs that a float holds, on a new cache of a positive capacity, its size is within the capacity, and the
-- hits and misses that it reports add up to the look-ups that were made.
pub run-stats :
    (capacity : ℕ) (calls : List Call) (c : LruCache) (outcomes : List Outcome)
    → 0 < capacity
    → run (Lru.init capacity) calls ≡ some (c, outcomes)
    → ((stats c).size ≤ capacity)
      × ((stats c).capacity ≡ capacity)
      × ((stats c).hits + (stats c).misses ≡ gets_in calls)
unfolding stats
run-stats capacity calls c outcomes positive e =
    let w = run-Refines capacity calls in
    let after : w.after ≡ c = ap (λ p. p.0) (some-injective _ _ (sym (w.returns) ∙ e)) in
    let rep =
      subst (λ x. Represents x (abstract_run (nothing_stored capacity) calls).0) after
        w.represents in
    let counts =
      run-IsCounted (nothing_stored capacity) calls capacity 0 positive
        (record { bounded = omega arith; same_capacity = refl; counted = refl }) in
    (
      omega (
        arith,
        same_length c (abstract_run (nothing_stored capacity) calls).0 rep,
        counts.bounded,
      ),
      rep.capacity ∙ counts.same_capacity,
      omega (arith, rep.hits, rep.misses, counts.counted),
    )
