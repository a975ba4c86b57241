-- ===== src/Lru.antt =====
-- distributed_cache/scaffold/app/lru_cache.py: the doubly linked list on an explicit heap, where a
-- reference is a number and the two sentinels are 0 and 1. `none` as the outcome of a method is
-- the `AttributeError` of a link that is not there, or the `OverflowError` of a ttl that no float
-- holds. Times are microseconds, and the rounding of floats is left out.
mod Tests
pub mod Chain
pub mod Links
pub mod Recent
pub mod Dict
pub mod Entries
pub mod Stored
pub mod Refines
pub mod Runs
use sd_practice_qr_code_gene.Base.{◌-◌, ◌^◌, leb}
use sd_practice_qr_code_gene.Base.{
  ℕ, zero, ◌+◌, Bool, true, false, Option, none, some, List, [], ◌∷◌, leb, ltb, ◌==◌, if◌then◌else◌,
  ite, length,
}
use sd_practice_qr_code_gene.Base.Int.{ℤ, pos, negsuc, seconds_until, after_seconds}
use sd_practice_qr_code_gene.Base.Text.{Text, codes, text_dec}

pub record Node : Type 0 where
  pub key : Text
  pub value : Text
  pub expires_at : Option ℕ
  pub prev : Option ℕ
  pub next : Option ℕ

abbrev pub Heap : Type 0
Heap = ℕ → Node

abbrev pub head_ref : ℕ
head_ref = 0

abbrev pub tail_ref : ℕ
tail_ref = 1

-- `node.attribute = …`
unfoldable pub update : Heap → ℕ → Node → Heap
update h r n q = if q == r then n else h q

unfoldable pub set_prev : Heap → ℕ → Option ℕ → Heap
set_prev h r p = update h r (record (h r) { prev = p })

unfoldable pub set_next : Heap → ℕ → Option ℕ → Heap
set_next h r n = update h r (record (h r) { next = n })

-- `cache` is the `dict`; `fresh` is the next reference to allocate.
pub record LruCache : Type 0 where
  pub capacity : ℕ
  pub cache : List (Text × ℕ)
  pub heap : Heap
  pub fresh : ℕ
  pub hits : ℕ
  pub misses : ℕ
  pub evictions : ℕ

unfoldable pub sentinels : Heap
sentinels r =
    if r == head_ref
    then record {
      key = codes "__head__";
      value = [];
      expires_at = none;
      prev = none;
      next = some tail_ref;
    }
    else record {
      key = codes "__tail__";
      value = [];
      expires_at = none;
      prev = some head_ref;
      next = none;
    }

unfoldable pub init : ℕ → LruCache
init capacity = record {
  capacity = capacity;
  cache = [];
  heap = sentinels;
  fresh = 2;
  hits = 0;
  misses = 0;
  evictions = 0;
}

-- `d.get(k)`, `d.pop(k)`, `d[k] = r` for a key that is not there
unfoldable pub lookup : Text → List (Text × ℕ) → Option ℕ
lookup k [] = none
lookup k ((j, r) ∷ m) = ite (text_dec j k) (some r) (lookup k m)

unfoldable pub without : Text → List (Text × ℕ) → List (Text × ℕ)
without k [] = []
without k ((j, r) ∷ m) = let rest = without k m in ite (text_dec j k) rest ((j, r) ∷ rest)

-- `_remove`, once both links are read
unfoldable pub unlink : Heap → ℕ → Option ℕ → Option ℕ → Option Heap
unlink h node none nxt = none
unlink h node (some prev) none = none
unlink h node (some prev) (some nxt) =
    let h' = set_prev (set_next h prev (some nxt)) nxt (some prev) in
    some (set_next (set_prev h' node none) node none)

unfoldable pub remove : Heap → ℕ → Option Heap
remove h node = unlink h node (h node).prev (h node).next

-- The last two assignments of `_prepend`.
unfoldable pub link_first : Heap → ℕ → Option ℕ → Option Heap
link_first h node none = none
link_first h node (some first) = some (set_next (set_prev h first (some node)) head_ref (some node))

unfoldable pub prepend : Heap → ℕ → Option Heap
prepend h node =
    let h' = set_prev h node (some head_ref) in
    let h'' = set_next h' node (h' head_ref).next in link_first h'' node (h'' head_ref).next

-- `self._remove(node); self._prepend(node)`
unfoldable pub move_to_head : Heap → ℕ → Option Heap
move_to_head h node = elim (remove h node) [ none ↦ none | some h' ↦ prepend h' node ]

abbrev pub with_heap {ℓ} : {A : Type ℓ} → Option Heap → (Heap → A) → Option A
with_heap none f = none
with_heap (some h) f = some (f h)

unfoldable pub delete : LruCache → Text → Option (LruCache × Bool)
delete c key = elim (lookup key c.cache) [
  | none ↦ some (c, false)
  | some node ↦
      with_heap (remove c.heap node)
        (λ h. (record c { cache = without key c.cache; heap = h }, true))
]

-- `get` returns a value with the seconds that it has left, or raises.
pub data Answer : Type 0 where
  found : Text → Option ℤ → Answer
  cache_miss cache_expired : Answer

-- `node.expires_at is not None and time.time() > node.expires_at`
unfoldable pub is_expired : Option ℕ → ℕ → Bool
is_expired none now = false
is_expired (some t) now = ltb t now

-- `int(node.expires_at - time.time()) if node.expires_at else None`
unfoldable pub ttl_remaining : Option ℕ → ℕ → Option ℤ
ttl_remaining none now = none
ttl_remaining (some t) now = if t == 0 then none else some (seconds_until t now)

unfoldable pub get_expired : LruCache → Text → Option (LruCache × Answer)
get_expired c key = elim (delete c key) [
  | none ↦ none
  | some (c', _) ↦ some (record c' { misses = c'.misses + 1 }, cache_expired)
]

unfoldable pub get_node : LruCache → Text → ℕ → ℕ → ℕ → Option (LruCache × Answer)
get_node c key node now later =
    if is_expired (c.heap node).expires_at now
    then get_expired c key
    else with_heap (move_to_head c.heap node) (λ h. (
      record c { heap = h; hits = c.hits + 1 },
      found (h node).value (ttl_remaining (h node).expires_at later),
    ))

-- `now` is the reading of the expiry test, `later` that of the time left.
unfoldable pub get : LruCache → Text → ℕ → ℕ → Option (LruCache × Answer)
get c key now later = elim (lookup key c.cache) [
  | none ↦ some (record c { misses = c.misses + 1 }, cache_miss)
  | some node ↦ get_node c key node now later
]

-- The least number that rounds to no float.
abbrev pub float_limit : ℕ
float_limit = 2 ^ 1024 - 2 ^ 970

-- Whether `time.time() + ttl` raises OverflowError, since no float holds the ttl.
unfoldable pub overflows : Option ℤ → Bool
overflows none = false
overflows (some (pos n)) = leb float_limit n
overflows (some (negsuc n)) = leb float_limit (n + 1)

-- `time.time() + ttl if ttl else None`, of a ttl that does not overflow
unfoldable pub expiry : Option ℤ → ℕ → Option ℕ
expiry none now = none
expiry (some (pos zero)) now = none
expiry (some ttl) now = some (after_seconds now ttl)

unfoldable pub set_existing : LruCache → ℕ → Text → Option ℕ → Option LruCache
set_existing c node value expires_at =
    let h = update c.heap node (record (c.heap node) { value = value; expires_at = expires_at }) in
    with_heap (move_to_head h node) (λ h'. record c { heap = h' })

-- `if len(self._cache) >= self._capacity`
unfoldable pub evict : LruCache → Option LruCache
evict c =
    if leb c.capacity (length c.cache)
    then elim (c.heap tail_ref).prev [
      | none ↦ none
      | some lru ↦ elim (delete c (c.heap lru).key) [
        | none ↦ none
        | some (c', _) ↦ some (record c' { evictions = c'.evictions + 1 })
      ]
    ]
    else some c

unfoldable pub insert_new : LruCache → Text → Text → Option ℕ → Option LruCache
insert_new c key value expires_at =
    let node : Node = record {
      key = key;
      value = value;
      expires_at = expires_at;
      prev = none;
      next = none;
    } in
    with_heap (prepend (update c.heap c.fresh node) c.fresh)
      (λ h. record c { cache = (key, c.fresh) ∷ c.cache; heap = h; fresh = c.fresh + 1 })

unfoldable pub set_expiring : LruCache → Text → Text → Option ℕ → Option LruCache
set_expiring c key value expires_at = elim (lookup key c.cache) [
  | some node ↦ set_existing c node value expires_at
  | none ↦ elim (evict c) [ none ↦ none | some c' ↦ insert_new c' key value expires_at ]
]

-- A ttl that overflows raises, in either branch; what it leaves of the cache, a value that is
-- replaced or an entry that is evicted, is lost with the `none`.
unfoldable pub set : LruCache → Text → Text → Option ℤ → ℕ → Option LruCache
set c key value ttl now = if overflows ttl then none else set_expiring c key value (expiry ttl now)

-- `stats()`
pub record Stats : Type 0 where
  pub hits : ℕ
  pub misses : ℕ
  pub evictions : ℕ
  pub size : ℕ
  pub capacity : ℕ

unfoldable pub stats : LruCache → Stats
stats c = record {
  hits = c.hits;
  misses = c.misses;
  evictions = c.evictions;
  size = length c.cache;
  capacity = c.capacity;
}
