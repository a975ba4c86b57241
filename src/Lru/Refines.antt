-- ===== src/Lru/Refines.antt =====
-- About each method of the cache, next to the list of entries.
pub mod Evicts
pub mod Sets
use sd_practice_qr_code_gene.Base.{
  ℕ, ◌+◌, Bool, true, false, Option, none, some, List, [], ◌∷◌, ◌≡◌, ◌≢◌, leb, if◌then◌else◌, ite,
  arith, refl, map, length, ap, sym, ◌∙◌, inl, inr, Bool-cases, Option-cases,
}
use mathlib.Core.Path.{subst}
use sd_practice_qr_code_gene.Base.Int.{ℤ}
use sd_practice_qr_code_gene.Base.Text.{Text}
use sd_practice_qr_code_gene.Lru
use sd_practice_qr_code_gene.Lru.{
  Node, Heap, LruCache, Answer, found, cache_miss, cache_expired, tail_ref, head_ref, lookup,
  without, update, remove, move_to_head, prepend, is_expired, ttl_remaining, get_expired, get_node,
  expiry, set_existing, insert_new,
}
use sd_practice_qr_code_gene.Lru.Chain.{has, erase}
use sd_practice_qr_code_gene.Lru.Chain.Inner.{
  full, last_of, prev_of-tail_ref, inner-Distinct, has-full,
}
use sd_practice_qr_code_gene.Lru.Links.{IsLinked, Entry, entry}
use sd_practice_qr_code_gene.Lru.Recent
use sd_practice_qr_code_gene.Lru.Recent.{Recent, find, drop_key, drop_last, use_entry, push}
use sd_practice_qr_code_gene.Lru.Entries.{map-drop_last, has-last_of, erase-last_of, length-map}
use sd_practice_qr_code_gene.Lru.Stored.{
  IsStored, find-stored, find-absent, drop-listed, drop-IsStored,
}
use sd_practice_qr_code_gene.Lru.Stored.Front.{front-IsStored, push-IsStored}

pub record Represents (c : LruCache) (s : Recent) : Type 0 where
  pub stored : IsStored c.heap c.fresh c.cache s.items
  pub capacity : c.capacity ≡ s.capacity
  pub hits : c.hits ≡ s.hits
  pub misses : c.misses ≡ s.misses
  pub evictions : c.evictions ≡ s.evictions

-- A method that returns, with the answer of the abstract one, and a state that represents its.
pub record Refines {A : Type 0} (o : Option (LruCache × A)) (p : Recent × A) : Type 0 where
  pub after : LruCache
  pub returns : o ≡ some (after, p.1)
  pub represents : Represents after p.0

module _ (c : LruCache) (s : Recent) (v : Represents c s) where
  pub found_entry :
      (key : Text) (r : ℕ)
      → lookup key c.cache ≡ some r
      → find key s.items ≡ some (entry (c.heap r))
  found_entry = find-stored c.heap c.fresh c.cache s.items v.stored

  pub no_entry : (key : Text) → lookup key c.cache ≡ none → find key s.items ≡ none
  no_entry = find-absent c.heap c.fresh c.cache s.items v.stored

  -- What `delete` does for a key that is there.
  pub delete_there :
      (key : Text) (r : ℕ)
      → lookup key c.cache ≡ some r
      → (c' : LruCache) × (Lru.delete c key ≡ some (c', true))
        × Represents c' (record s { items = drop_key key s.items })
  unfolding Lru.delete
  delete_there key r e =
      let (h, runs, st) = drop-IsStored c.heap c.fresh c.cache s.items v.stored key r e in
      (
        record c { cache = without key c.cache; heap = h },
        rw (e, Lru.delete) (rw (runs) refl),
        record {
          stored = st;
          capacity = v.capacity;
          hits = v.hits;
          misses = v.misses;
          evictions = v.evictions;
        },
      )

  pub delete-Refines : (key : Text) → Refines (Lru.delete c key) (Recent.delete s key)
  unfolding Lru.delete Recent.delete
  delete-Refines key = elim (Option-cases (lookup key c.cache)) [
    | inl e ↦
        rw (no_entry key e, Recent.delete)
          (record { after = c; returns = rw (e, Lru.delete) refl; represents = v })
    | inr (r, e) ↦
        let (c', runs, rep) = delete_there key r e in
        rw (found_entry key r e, Recent.delete)
          (record { after = c'; returns = runs; represents = rep })
  ]

  expired-Refines :
      (key : Text) (r : ℕ)
      → lookup key c.cache ≡ some r
      → Refines
          (get_expired c key)
          (record s { items = drop_key key s.items; misses = s.misses + 1 }, cache_expired)
  unfolding get_expired
  expired-Refines key r e =
      let (c', runs, rep) = delete_there key r e in
      record {
        after = record c' { misses = c'.misses + 1 };
        returns = rw (runs, get_expired) refl;
        represents = record {
          stored = rep.stored;
          capacity = rep.capacity;
          hits = rep.hits;
          misses = omega (arith, rep.misses);
          evictions = rep.evictions;
        };
      }

  hit-Refines :
      (key : Text) (r now later : ℕ)
      → lookup key c.cache ≡ some r
      → Refines (get_node c key r now later) (use_entry s key (entry (c.heap r)) now later)
  unfolding get_node use_entry
  hit-Refines key r now later e = elim (Bool-cases (is_expired (c.heap r).expires_at now)) [
    | inl past ↦ rw past (expired-Refines key r e)
    | inr valid ↦
        let (h, runs, own, st) =
          front-IsStored c.heap c.fresh c.cache s.items v.stored key r c.heap e v.stored.linked
            (λ y apart. refl) (v.stored.sound key r e).1 in
        rw valid (record {
          after = record c { heap = h; hits = c.hits + 1 };
          returns = rw runs (
              ap
                (λ x. some (
                  record c { heap = h; hits = c.hits + 1 },
                  found x.value (ttl_remaining x.expires_at later),
                ))
                own);
          represents = record {
            stored = st;
            capacity = v.capacity;
            hits = omega (arith, v.hits);
            misses = v.misses;
            evictions = v.evictions;
          };
        })
  ]

  pub get-Refines :
      (key : Text) (now later : ℕ) → Refines (Lru.get c key now later) (Recent.get s key now later)
  unfolding Lru.get Recent.get
  get-Refines key now later = elim (Option-cases (lookup key c.cache)) [
    | inl e ↦
        rw (no_entry key e, Recent.get)
          (record {
            after = record c { misses = c.misses + 1 };
            returns = rw (e, Lru.get) refl;
            represents = record {
              stored = v.stored;
              capacity = v.capacity;
              hits = v.hits;
              misses = omega (arith, v.misses);
              evictions = v.evictions;
            };
          })
    | inr (r, e) ↦
        rw (found_entry key r e, Recent.get) (rw (e, Lru.get) (hit-Refines key r now later e))
  ]
