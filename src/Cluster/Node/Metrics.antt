-- ===== src/Cluster/Node/Metrics.antt =====
-- About the metrics of a node after any requests.
use sd_practice_qr_code_gene.Base.{ℕ, Option, none, some, List, [], ◌∷◌, ◌≡◌, refl, sym, ◌∙◌}
use sd_practice_qr_code_gene.Base.Text.{Text}
use sd_practice_qr_code_gene.Lru.{stats}
use sd_practice_qr_code_gene.Lru.Recent.{Recent}
use sd_practice_qr_code_gene.Lru.Refines.Evicts.{same_length}
use sd_practice_qr_code_gene.Lru.Runs.{
  Call, gets, sets, deletes, nothing_stored, abstract_step, abstract_run,
}
use sd_practice_qr_code_gene.Cluster.Node.{Node, start, set_key, get_key, delete_key, get_stats}
use sd_practice_qr_code_gene.Cluster.Node.Serves.{
  Agrees, set-Serves, get-Serves, delete-Serves, start-Agrees,
}

-- The node after one request.
unfoldable pub handle : Node → Call → Option Node
handle n (gets key now later) = elim (get_key n key now later) [ none ↦ none | some p ↦ some (p.0) ]
handle n (sets key value ttl now) =
    elim (set_key n key (record { value = value; ttl = ttl.0 }) now) [
      | none ↦ none
      | some p ↦ some (p.0)
    ]
handle n (deletes key) = elim (delete_key n key) [ none ↦ none | some p ↦ some (p.0) ]

unfoldable pub handle_all : Node → List Call → Option Node
handle_all n [] = some n
handle_all n (call ∷ calls) = elim (handle n call) [ none ↦ none | some n' ↦ handle_all n' calls ]

handle-Agrees :
    (n : Node) (s : Recent) (call : Call)
    → Agrees n s
    → (n' : Node) × (handle n call ≡ some n') × Agrees n' (abstract_step s call).0
unfolding handle abstract_step
handle-Agrees n s (gets key now later) v =
    let w = get-Serves n s v key now later in (w.after, rw (w.returns, handle) refl, w.agrees)
handle-Agrees n s (sets key value ttl now) v =
    let w = set-Serves n s v key value ttl.0 now ttl.1 in
    (w.after, rw (w.returns, handle) refl, w.agrees)
handle-Agrees n s (deletes key) v =
    let w = delete-Serves n s v key in (w.after, rw (w.returns, handle) refl, w.agrees)

handle_all-Agrees :
    (n : Node) (s : Recent) (calls : List Call)
    → Agrees n s
    → (n' : Node) × (handle_all n calls ≡ some n') × Agrees n' (abstract_run s calls).0
unfolding handle_all abstract_run
handle_all-Agrees n s [] v = (n, refl, v)
handle_all-Agrees n s (call ∷ calls) v =
    let (n', runs, v') = handle-Agrees n s call v in
    let (n'', runs', v'') = handle_all-Agrees n' (abstract_step s call).0 calls v' in
    (n'', rw (runs, handle_all) runs', v'')

-- Whatever the requests to a new node, with TTLs that a float holds, none of them raises, and then the
-- counters and gauges of the node are the numbers that its `/stats` reports.
pub handle_all-metrics :
    (node_id : Text) (capacity : ℕ) (calls : List Call)
    → (n : Node) × (handle_all (start node_id capacity) calls ≡ some n)
      × (n.hits_total ≡ (get_stats n).hits)
      × (n.misses_total ≡ (get_stats n).misses)
      × (n.evictions_total ≡ (get_stats n).evictions)
      × (n.size_gauge ≡ (get_stats n).size)
      × (n.capacity_gauge ≡ (get_stats n).capacity)
unfolding get_stats stats
handle_all-metrics node_id capacity calls =
    let (n, runs, v) =
      handle_all-Agrees (start node_id capacity) (nothing_stored capacity) calls
        (start-Agrees node_id capacity) in
    let r = v.represents in
    (
      n,
      runs,
      v.hits ∙ sym r.hits,
      v.misses ∙ sym r.misses,
      v.evictions ∙ sym r.evictions,
      v.size ∙ sym (same_length n.cache (abstract_run (nothing_stored capacity) calls).0 r),
      v.capacity ∙ sym r.capacity,
    )
