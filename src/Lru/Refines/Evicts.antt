-- ===== src/Lru/Refines/Evicts.antt =====
-- About an eviction, next to the last entry of the list.
use sd_practice_qr_code_gene.Base.{
  ℕ, ◌+◌, true, none, some, List, [], ◌∷◌, ◌≡◌, leb, arith, refl, map, length, ap, sym, ◌∙◌, inl,
  inr, Bool-cases, Option-cases,
}
use mathlib.Core.Path.{subst}
use sd_practice_qr_code_gene.Base.Text.{Text}
use sd_practice_qr_code_gene.Lru
use sd_practice_qr_code_gene.Lru.{
  Node, Heap, LruCache, tail_ref, head_ref, lookup, without, update, move_to_head, prepend, expiry,
  set_existing, insert_new,
}
use sd_practice_qr_code_gene.Lru.Chain.{has, erase, Distinct, prev_of}
use sd_practice_qr_code_gene.Lru.Chain.Inner.{
  full, last_of, prev_of-tail_ref, inner-Distinct, has-full,
}
use sd_practice_qr_code_gene.Lru.Links.{Entry, entry}
use sd_practice_qr_code_gene.Lru.Recent
use sd_practice_qr_code_gene.Lru.Recent.{Recent, find, drop_key, drop_last, push}
use sd_practice_qr_code_gene.Lru.Entries.{map-drop_last, has-last_of, erase-last_of, length-map}
use sd_practice_qr_code_gene.Lru.Stored.{IsStored, drop-listed}
use sd_practice_qr_code_gene.Lru.Refines.{Represents, delete_there, found_entry}

module _ (c : LruCache) (s : Recent) (v : Represents c s) where
  entry_at : ℕ → Entry
  entry_at r = entry (c.heap r)

  tail_prev :
      (x : ℕ) (l : List ℕ) → v.stored.inner ≡ x ∷ l → (c.heap tail_ref).prev ≡ some (last_of x l)
  unfolding last_of
  tail_prev x l shape =
      v.stored.linked.prev tail_ref
        (v.stored.linked.allocated tail_ref (ground (arith, has-full v.stored.inner tail_ref)))
      ∙ ap (λ i. prev_of (full i) tail_ref) shape
      ∙ prev_of-tail_ref head_ref (x ∷ l)
          (subst (λ i. Distinct (full i)) shape v.stored.linked.distinct)

  last_stored :
      (x : ℕ) (l : List ℕ)
      → v.stored.inner ≡ x ∷ l
      → lookup (c.heap (last_of x l)).key c.cache ≡ some (last_of x l)
  last_stored x l shape =
      v.stored.complete (last_of x l)
        (subst (λ i. has i (last_of x l) ≡ true) (sym shape) (has-last_of x l))

  last_dropped :
      (x : ℕ) (l : List ℕ)
      → v.stored.inner ≡ x ∷ l
      → drop_key (c.heap (last_of x l)).key s.items ≡ drop_last s.items
  unfolding entry_at
  last_dropped x l shape =
      let r = last_of x l in
      let distinct =
        subst Distinct shape (inner-Distinct v.stored.inner v.stored.linked.distinct) in
      drop-listed c.heap c.fresh c.cache s.items v.stored (c.heap r).key r (last_stored x l shape)
      ∙ ap (λ i. map entry_at (erase r i)) shape
      ∙ ap (map entry_at) (erase-last_of x l distinct)
      ∙ map-drop_last entry_at (x ∷ l)
      ∙ ap drop_last (sym (v.stored.listed ∙ ap (map entry_at) shape))

  empty_prev : v.stored.inner ≡ [] → (c.heap tail_ref).prev ≡ some head_ref
  unfolding last_of
  empty_prev shape =
      v.stored.linked.prev tail_ref
        (v.stored.linked.allocated tail_ref (ground (arith, has-full v.stored.inner tail_ref)))
      ∙ ap (λ i. prev_of (full i) tail_ref) shape
      ∙ prev_of-tail_ref head_ref [] (subst (λ i. Distinct (full i)) shape v.stored.linked.distinct)

  pub same_length : length c.cache ≡ length s.items
  same_length = omega (
    arith,
    v.stored.size,
    length-map (λ r. entry (c.heap r)) v.stored.inner,
    ap length v.stored.listed,
  )

  same_test : leb c.capacity (length c.cache) ≡ leb s.capacity (length s.items)
  same_test = rw (v.capacity, same_length) refl

  -- `evict` once the cache is full.
  evicted_from :
      (inner : List ℕ)
      → v.stored.inner ≡ inner
      → leb c.capacity (length c.cache) ≡ true
      → (c' : LruCache) × (Lru.evict c ≡ some c')
        × Represents c' (record s { items = drop_last s.items; evictions = s.evictions + 1 })
  unfolding Lru.evict Lru.delete
  evicted_from [] shape is_full =
      let nothing : s.items ≡ [] = v.stored.listed ∙ ap (map (λ r. entry (c.heap r))) shape in
      let absent : lookup (c.heap head_ref).key c.cache ≡ none =
        elim (Option-cases (lookup (c.heap head_ref).key c.cache)) [
          | inl e ↦ e
          | inr (r, e) ↦ absurd (
              let inside = subst (λ i. has i r ≡ true) shape (v.stored.sound _ r e).0 in
              unfold has in cc)
        ] in
      (
        record c { evictions = c.evictions + 1 },
        rw (is_full, Lru.evict) (rw (empty_prev shape) (rw absent refl)),
        record {
          stored =
              subst (IsStored c.heap c.fresh c.cache) (nothing ∙ ap drop_last (sym nothing))
                v.stored;
          capacity = v.capacity;
          hits = v.hits;
          misses = v.misses;
          evictions = omega (arith, v.evictions);
        },
      )
  evicted_from (x ∷ l) shape is_full =
      let key = (c.heap (last_of x l)).key in
      let (c', runs, rep) = delete_there c s v key (last_of x l) (last_stored x l shape) in
      (
        record c' { evictions = c'.evictions + 1 },
        rw (is_full, Lru.evict) (rw (tail_prev x l shape) (rw runs refl)),
        record {
          stored = subst (IsStored c'.heap c'.fresh c'.cache) (last_dropped x l shape) rep.stored;
          capacity = rep.capacity;
          hits = rep.hits;
          misses = rep.misses;
          evictions = omega (arith, rep.evictions);
        },
      )

  pub evicted : (c' : LruCache) × (Lru.evict c ≡ some c') × Represents c' (Recent.evict s)
  unfolding Lru.evict Recent.evict
  evicted = elim (Bool-cases (leb s.capacity (length s.items))) [
    | inr room ↦ (c, rw (same_test, room) refl, rw room v)
    | inl is_full ↦ rw is_full (evicted_from v.stored.inner refl (same_test ∙ is_full))
  ]

-- A key that has no entry gets none by an eviction.
find-drop_last : (k : Text) (es : List Entry) → find k es ≡ none → find k (drop_last es) ≡ none
unfolding find
find-drop_last k [] e = refl
find-drop_last k (x ∷ []) e = refl
find-drop_last k (x ∷ y ∷ es) e = ground (arith, find-drop_last k (y ∷ es))

pub find-evict :
    (k : Text) (s : Recent) → find k s.items ≡ none → find k (Recent.evict s).items ≡ none
unfolding Recent.evict
find-evict k s e = ground (arith, find-drop_last k s.items)

pub absent_entry :
    (c : LruCache) (s : Recent)
    → Represents c s
    → (key : Text) → find key s.items ≡ none
    → lookup key c.cache ≡ none
absent_entry c s v key e = elim (Option-cases (lookup key c.cache)) [
  | inl absent ↦ absent
  | inr (r, there) ↦ absurd (let here = found_entry c s v key r there in ground arith)
]
