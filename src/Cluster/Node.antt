-- ===== src/Cluster/Node.antt =====
-- distributed_cache/scaffold/app/node_api.py: the handlers of one node, over its cache. `none` is an
-- exception of the cache that the handler does not catch. Times are those of Lru.
pub mod Metrics
pub mod Serves
use sd_practice_qr_code_gene.Base.{ℕ, ◌+◌, ◌-◌, Bool, Option, none, some, ltb, if◌then◌else◌}
use sd_practice_qr_code_gene.Base.Text.{Text, codes}
use sd_practice_qr_code_gene.Lru
use sd_practice_qr_code_gene.Lru.{LruCache, Answer, found, cache_miss, cache_expired, Stats, stats}
use sd_practice_qr_code_gene.Cluster.{
  CacheSetRequest, CacheSetResponse, CacheGetResponse, CacheDeleteResponse, ErrorResponse, Reply,
  ok, json,
}

-- The module's globals, and the metrics that are labelled with the node.
pub record Node : Type 0 where
  pub node_id : Text
  pub cache : LruCache
  pub prev_evictions : ℕ
  pub hits_total : ℕ
  pub misses_total : ℕ
  pub evictions_total : ℕ
  pub size_gauge : ℕ
  pub capacity_gauge : ℕ

unfoldable pub start : Text → ℕ → Node
start node_id capacity = record {
  node_id = node_id;
  cache = Lru.init capacity;
  prev_evictions = 0;
  hits_total = 0;
  misses_total = 0;
  evictions_total = 0;
  size_gauge = 0;
  capacity_gauge = capacity;
}

-- The `delta` is tested to be positive, so it may be cut off at 0.
unfoldable pub sync_metrics : Node → Node
sync_metrics n =
    let s = stats n.cache in
    let sized : Node = record n { size_gauge = s.size } in
    let delta = s.evictions - n.prev_evictions in
    if ltb 0 delta
    then record sized { evictions_total = n.evictions_total + delta; prev_evictions = s.evictions }
    else sized

unfoldable pub set_key : Node → Text → CacheSetRequest → ℕ → Option (Node × Reply CacheSetResponse)
set_key n key body now = elim (Lru.set n.cache key body.value body.ttl now) [
  | none ↦ none
  | some c ↦
      some (sync_metrics (record n { cache = c }), ok (record { key = key; node = n.node_id }))
]

-- What `get_key` does for each outcome of the cache.
unfoldable pub answer_get : Node → Text → Answer → Node × Reply CacheGetResponse
answer_get n key (found value ttl_remaining) = (
  sync_metrics (record n { hits_total = n.hits_total + 1 }),
  ok (record { key = key; value = value; ttl_remaining = ttl_remaining }),
)
answer_get n key cache_expired = (
  sync_metrics (record n { misses_total = n.misses_total + 1 }),
  json 404 (record { error = codes "expired"; key = key; node = none }),
)
answer_get n key cache_miss = (
  record n { misses_total = n.misses_total + 1 },
  json 404 (record { error = codes "miss"; key = key; node = none }),
)

unfoldable pub get_key : Node → Text → ℕ → ℕ → Option (Node × Reply CacheGetResponse)
get_key n key now later = elim (Lru.get n.cache key now later) [
  | none ↦ none
  | some (c, a) ↦ some (answer_get (record n { cache = c }) key a)
]

unfoldable pub delete_key : Node → Text → Option (Node × Reply CacheDeleteResponse)
delete_key n key = elim (Lru.delete n.cache key) [
  | none ↦ none
  | some (c, _) ↦ some (sync_metrics (record n { cache = c }), ok (record { key = key }))
]

unfoldable pub get_stats : Node → Stats
get_stats n = stats n.cache
