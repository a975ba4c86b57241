-- ===== src/Lru/Refines/Sets.antt =====
-- `set`: an update, or an eviction and a new node.
use sd_practice_qr_code_gene.Base.{
  ℕ, false, ◌+◌, Option, none, some, List, ◌∷◌, ◌≡◌, ◌≢◌, arith, refl, ap, ◌∙◌, inl, inr,
  Option-cases,
}
use mathlib.Core.Path.{subst}
use sd_practice_qr_code_gene.Base.Int.{ℤ}
use sd_practice_qr_code_gene.Base.Text.{Text}
use sd_practice_qr_code_gene.Lru
use sd_practice_qr_code_gene.Lru.{
  Node, Heap, LruCache, tail_ref, head_ref, lookup, without, update, move_to_head, prepend, expiry,
  set_existing, insert_new, overflows,
}
use sd_practice_qr_code_gene.Lru.Chain.Inner.{full}
use sd_practice_qr_code_gene.Lru.Links.{IsLinked, entry}
use sd_practice_qr_code_gene.Lru.Recent
use sd_practice_qr_code_gene.Lru.Recent.{Recent, find, drop_key, drop_last, push}
use sd_practice_qr_code_gene.Lru.Stored.{IsStored}
use sd_practice_qr_code_gene.Lru.Stored.Front.{front-IsStored, push-IsStored}
use sd_practice_qr_code_gene.Lru.Refines.{Represents, found_entry, no_entry}
use sd_practice_qr_code_gene.Lru.Refines.Evicts.{evicted, find-evict, absent_entry}

-- A write of the stored fields keeps the links.
update-IsLinked :
    (h : Heap) (fresh : ℕ) (l : List ℕ) (r : ℕ) (value : Text) (expires_at : Option ℕ)
    → IsLinked h fresh l
    → IsLinked (update h r (record (h r) { value = value; expires_at = expires_at })) fresh l
unfolding update
update-IsLinked h fresh l r value expires_at v = record {
  next = λ y low. ground (arith, v.next y low);
  prev = λ y low. ground (arith, v.prev y low);
  distinct = v.distinct;
  allocated = v.allocated;
}

update_self : (h : Heap) (r : ℕ) (n : Node) → update h r n r ≡ n
unfolding update
update_self h r n = ground arith

update_other : (h : Heap) (r : ℕ) (n : Node) (y : ℕ) → y ≢ r → update h r n y ≡ h y
unfolding update
update_other h r n y apart = ground arith

module _ (c : LruCache) (s : Recent) (v : Represents c s) where
  existing :
      (key value : Text) (expires_at : Option ℕ) (r : ℕ)
      → lookup key c.cache ≡ some r
      → (c' : LruCache) × (set_existing c r value expires_at ≡ some c')
        × Represents c' (record s {
          items =
              record { key = key; value = value; expires_at = expires_at } ∷ drop_key key s.items;
        })
  unfolding set_existing
  existing key value expires_at r e =
      let n : Node = record (c.heap r) { value = value; expires_at = expires_at } in
      let key_r : (c.heap r).key ≡ key = (v.stored.sound key r e).1 in
      let own : entry (update c.heap r n r)
          ≡ record { key = key; value = value; expires_at = expires_at } =
        ap entry (update_self c.heap r n)
        ∙ ap (λ k. record { key = k; value = value; expires_at = expires_at }) key_r in
      let (h, runs, same, st) =
        front-IsStored c.heap c.fresh c.cache s.items v.stored key r (update c.heap r n) e
          (update-IsLinked c.heap c.fresh (full v.stored.inner) r value expires_at v.stored.linked)
          (λ y apart. ap entry (update_other c.heap r n y apart)) (ap (λ x. x.key) own) in
      (
        record c { heap = h },
        rw runs refl,
        record {
          stored = subst (λ x. IsStored h c.fresh c.cache (x ∷ drop_key key s.items)) own st;
          capacity = v.capacity;
          hits = v.hits;
          misses = v.misses;
          evictions = v.evictions;
        },
      )

  -- A new node for a key that is not there.
  inserted :
      (key value : Text) (expires_at : Option ℕ)
      → lookup key c.cache ≡ none
      → (c' : LruCache) × (insert_new c key value expires_at ≡ some c')
        × Represents c' (push s (record { key = key; value = value; expires_at = expires_at }))
  unfolding insert_new push
  inserted key value expires_at e =
      let n : Node = record {
        key = key;
        value = value;
        expires_at = expires_at;
        prev = none;
        next = none;
      } in
      let self = update_self c.heap c.fresh n in
      let (h, runs, st) =
        push-IsStored c.heap c.fresh c.cache s.items v.stored (update c.heap c.fresh n)
          (record { key = key; value = value; expires_at = expires_at }) e
          (update_other c.heap c.fresh n) (ap entry self) (ap (λ x. x.prev) self)
          (ap (λ x. x.next) self) in
      (
        record c { cache = (key, c.fresh) ∷ c.cache; heap = h; fresh = c.fresh + 1 },
        rw runs refl,
        record {
          stored = st;
          capacity = v.capacity;
          hits = v.hits;
          misses = v.misses;
          evictions = v.evictions;
        },
      )

pub set-Represents :
    (c : LruCache) (s : Recent) (key value : Text) (ttl : Option ℤ) (now : ℕ)
    → Represents c s
    → overflows ttl ≡ false
    → (c' : LruCache) × (Lru.set c key value ttl now ≡ some c')
      × Represents c' (Recent.set s key value ttl now)
unfolding Lru.set Lru.set_expiring Recent.set
set-Represents c s key value ttl now v fits = elim (Option-cases (lookup key c.cache)) [
  | inr (r, e) ↦
      let (c', runs, rep) = existing c s v key value (expiry ttl now) r e in
      (
        c',
        rw (fits, Lru.set) (rw (e, Lru.set_expiring) runs),
        rw (found_entry c s v key r e, Recent.set) rep,
      )
  | inl e ↦
      let (c1, runs, rep) = evicted c s v in
      let still =
        absent_entry c1 (Recent.evict s) rep key (find-evict key s (no_entry c s v key e)) in
      let (c2, runs', rep') = inserted c1 (Recent.evict s) rep key value (expiry ttl now) still in
      (
        c2,
        rw (fits, Lru.set) (rw (e, Lru.set_expiring) (rw runs runs')),
        rw (no_entry c s v key e, Recent.set) rep',
      )
]
