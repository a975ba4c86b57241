-- ===== src/Cluster/Node/Serves.antt =====
-- About each handler of a node, next to the list of entries that its cache stands for.
use sd_practice_qr_code_gene.Base.{
  ℕ, false, ◌+◌, ◌≤◌, Option, none, some, ◌≡◌, arith, refl, length, inl, inr, Option-cases,
  Bool-cases, sym, ◌∙◌, ap,
}
use sd_practice_qr_code_gene.Base.Int.{ℤ}
use sd_practice_qr_code_gene.Base.Text.{Text, codes}
use sd_practice_qr_code_gene.Lru.{
  LruCache, Answer, found, cache_miss, cache_expired, stats, is_expired, overflows,
}
use sd_practice_qr_code_gene.Lru.Recent
use sd_practice_qr_code_gene.Lru.Recent.{Recent, find, use_entry, push}
use sd_practice_qr_code_gene.Lru.Refines.{Represents, get-Refines, delete-Refines}
use sd_practice_qr_code_gene.Lru.Refines.Evicts.{same_length}
use sd_practice_qr_code_gene.Lru.Refines.Sets.{set-Represents}
use sd_practice_qr_code_gene.Lru.Runs.{init-Represents, nothing_stored}
use sd_practice_qr_code_gene.Cluster.{CacheGetResponse, Reply, ok, json}
use sd_practice_qr_code_gene.Cluster.Node.{
  Node, start, sync_metrics, set_key, get_key, delete_key, answer_get,
}

-- The cache stands for the list of entries, and the metrics are the list's.
pub record Agrees (n : Node) (s : Recent) : Type 0 where
  pub represents : Represents n.cache s
  pub hits : n.hits_total ≡ s.hits
  pub misses : n.misses_total ≡ s.misses
  pub evictions : n.evictions_total ≡ s.evictions
  pub synced : n.prev_evictions ≡ s.evictions
  pub size : n.size_gauge ≡ length s.items
  pub capacity : n.capacity_gauge ≡ s.capacity

sync-Agrees :
    (n : Node) (s : Recent)
    → Represents n.cache s
    → n.hits_total ≡ s.hits
    → n.misses_total ≡ s.misses
    → n.prev_evictions ≡ n.evictions_total
    → n.prev_evictions ≤ s.evictions
    → n.capacity_gauge ≡ s.capacity
    → Agrees (sync_metrics n) s
unfolding sync_metrics stats
sync-Agrees n s v hits misses same below capacity =
    let size = same_length n.cache s v in
    record {
      represents = ground (arith, v);
      hits = ground (arith, hits);
      misses = ground (arith, misses);
      evictions = ground (arith, v.evictions);
      synced = ground (arith, v.evictions);
      size = ground (arith, size);
      capacity = ground (arith, capacity);
    }

evictions-set :
    (s : Recent) (key value : Text) (ttl : Option ℤ) (now : ℕ)
    → (s.evictions ≤ (Recent.set s key value ttl now).evictions)
      × ((Recent.set s key value ttl now).hits ≡ s.hits)
      × ((Recent.set s key value ttl now).misses ≡ s.misses)
      × ((Recent.set s key value ttl now).capacity ≡ s.capacity)
unfolding Recent.set push Recent.evict
evictions-set s key value ttl now = (ground arith, ground arith, ground arith, ground arith)

-- How a look-up moves the counters.
abbrev Counts : Recent → Recent → Answer → Type 0
Counts s s' (found value ttl) =
    (s'.hits ≡ s.hits + 1)
    × (s'.misses ≡ s.misses)
    × (s'.evictions ≡ s.evictions)
    × (s'.capacity ≡ s.capacity)
Counts s s' cache_expired =
    (s'.hits ≡ s.hits)
    × (s'.misses ≡ s.misses + 1)
    × (s'.evictions ≡ s.evictions)
    × (s'.capacity ≡ s.capacity)
Counts s s' cache_miss =
    (s'.hits ≡ s.hits)
    × (s'.misses ≡ s.misses + 1)
    × (s'.evictions ≡ s.evictions)
    × (s'.capacity ≡ s.capacity)
    × (length s'.items ≡ length s.items)

get-Counts :
    (s : Recent) (key : Text) (now later : ℕ)
    → Counts s (Recent.get s key now later).0 (Recent.get s key now later).1
unfolding Recent.get use_entry
get-Counts s key now later = elim (Option-cases (find key s.items)) [
  | inl e ↦ rw (e, Recent.get) (refl, refl, refl, refl, refl)
  | inr (x, e) ↦ elim (Bool-cases (is_expired x.expires_at now)) [
    | inl past ↦ rw (e, Recent.get) (rw (past, use_entry) (refl, refl, refl, refl))
    | inr valid ↦ rw (e, Recent.get) (rw (valid, use_entry) (refl, refl, refl, refl))
  ]
]

-- The reply to an outcome of the cache.
abbrev pub reply_of : Text → Answer → Reply CacheGetResponse
reply_of key (found value ttl) = ok (record { key = key; value = value; ttl_remaining = ttl })
reply_of key cache_expired = json 404 (record { error = codes "expired"; key = key; node = none })
reply_of key cache_miss = json 404 (record { error = codes "miss"; key = key; node = none })

-- A handler that returns, with a node that agrees again.
pub record Serves {A : Type 0} (n : Node) (o : Option (Node × A)) (s : Recent) (a : A)
    : Type 0 where
  pub after : Node
  pub returns : o ≡ some (after, a)
  pub agrees : Agrees after s
  pub same_id : after.node_id ≡ n.node_id

sync_id : (n : Node) → (sync_metrics n).node_id ≡ n.node_id
unfolding sync_metrics
sync_id n = ground arith

module _ (n : Node) (s : Recent) (v : Agrees n s) where
  pub set-Serves :
      (key value : Text) (ttl : Option ℤ) (now : ℕ)
      → overflows ttl ≡ false
      → Serves n
          (set_key n key (record { value = value; ttl = ttl }) now)
          (Recent.set s key value ttl now)
          (ok (record { key = key; node = n.node_id }))
  unfolding set_key
  set-Serves key value ttl now fits =
      let (c, runs, rep) = set-Represents n.cache s key value ttl now v.represents fits in
      let (evictions, hits, misses, capacity) = evictions-set s key value ttl now in
      record {
        after = sync_metrics (record n { cache = c });
        returns = rw (runs, set_key) refl;
        agrees =
            sync-Agrees (record n { cache = c }) (Recent.set s key value ttl now) rep
              (v.hits ∙ sym hits) (v.misses ∙ sym misses) (v.synced ∙ sym v.evictions)
              (omega (arith, v.synced, evictions)) (v.capacity ∙ sym capacity);
        same_id = sync_id (record n { cache = c });
      }

  pub delete-Serves :
      (key : Text) → Serves n (delete_key n key) (Recent.delete s key).0 (ok (record { key = key }))
  unfolding delete_key Recent.delete
  delete-Serves key =
      let w = delete-Refines n.cache s v.represents key in
      record {
        after = sync_metrics (record n { cache = w.after });
        returns = rw (w.returns, delete_key) refl;
        agrees =
            sync-Agrees (record n { cache = w.after }) (Recent.delete s key).0 w.represents
              (ground (arith, v.hits)) (ground (arith, v.misses)) (v.synced ∙ sym v.evictions)
              (ground (arith, v.synced)) (ground (arith, v.capacity));
        same_id = sync_id (record n { cache = w.after });
      }

  answer-Agrees :
      (c : LruCache) (s' : Recent) (key : Text) (a : Answer)
      → Represents c s'
      → Counts s s' a
      → Agrees (answer_get (record n { cache = c }) key a).0 s'
  unfolding answer_get
  answer-Agrees c s' key (found value ttl) rep (hits, misses, evictions, capacity) =
      sync-Agrees (record n { cache = c; hits_total = n.hits_total + 1 }) s' rep
        (omega (arith, v.hits, hits)) (v.misses ∙ sym misses) (v.synced ∙ sym v.evictions)
        (omega (arith, v.synced, evictions)) (v.capacity ∙ sym capacity)
  answer-Agrees c s' key cache_expired rep (hits, misses, evictions, capacity) =
      sync-Agrees (record n { cache = c; misses_total = n.misses_total + 1 }) s' rep
        (v.hits ∙ sym hits) (omega (arith, v.misses, misses)) (v.synced ∙ sym v.evictions)
        (omega (arith, v.synced, evictions)) (v.capacity ∙ sym capacity)
  answer-Agrees c s' key cache_miss rep (hits, misses, evictions, capacity, size) = record {
    represents = rep;
    hits = v.hits ∙ sym hits;
    misses = omega (arith, v.misses, misses);
    evictions = v.evictions ∙ sym evictions;
    synced = v.synced ∙ sym evictions;
    size = v.size ∙ sym size;
    capacity = v.capacity ∙ sym capacity;
  }

  answer_id :
      (c : LruCache) (key : Text) (a : Answer)
      → answer_get (record n { cache = c }) key a
          ≡ ((answer_get (record n { cache = c }) key a).0, reply_of key a)
        × ((answer_get (record n { cache = c }) key a).0.node_id ≡ n.node_id)
  unfolding answer_get sync_metrics
  answer_id c key (found value ttl) = (refl, ground arith)
  answer_id c key cache_expired = (refl, ground arith)
  answer_id c key cache_miss = (refl, refl)

  pub get-Serves :
      (key : Text) (now later : ℕ)
      → Serves n
          (get_key n key now later)
          (Recent.get s key now later).0
          (reply_of key (Recent.get s key now later).1)
  unfolding get_key
  get-Serves key now later =
      let w = get-Refines n.cache s v.represents key now later in
      let a = (Recent.get s key now later).1 in
      let (reply, same_id) = answer_id w.after key a in
      record {
        after = (answer_get (record n { cache = w.after }) key a).0;
        returns = rw (w.returns, get_key) (ap some reply);
        agrees =
            answer-Agrees w.after (Recent.get s key now later).0 key a w.represents
              (get-Counts s key now later);
        same_id = same_id;
      }

pub start-Agrees :
    (node_id : Text) (capacity : ℕ) → Agrees (start node_id capacity) (nothing_stored capacity)
unfolding start
start-Agrees node_id capacity = record {
  represents = init-Represents capacity;
  hits = refl;
  misses = refl;
  evictions = refl;
  synced = refl;
  size = refl;
  capacity = refl;
}
