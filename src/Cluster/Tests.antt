-- ===== src/Cluster/Tests.antt =====
-- Runs of the theorems of the cache's services, with the length of a text as its hash.
use mathlib.Core.List.{cons-ne-nil}
use sd_practice_qr_code_gene.Base.{All, ◌==◌, if◌then◌else◌}
use sd_practice_qr_code_gene.Base.{
  ℕ, ◌≢◌, none, some, List, [], ◌∷◌, ◌≡◌, ◌⊎◌, refl, arith, length, false,
}
use sd_practice_qr_code_gene.Base.Int.{pos}
use sd_practice_qr_code_gene.Base.Dict
use sd_practice_qr_code_gene.Base.Text.{Text, codes, text_dec}
use sd_practice_qr_code_gene.Ring
use sd_practice_qr_code_gene.Ring.{node_for_key, dispatch, get_node}
use sd_practice_qr_code_gene.Lru.{overflows}
use sd_practice_qr_code_gene.Lru.Runs.{Call, gets, sets, deletes, nothing_stored}
use sd_practice_qr_code_gene.Cluster.{ok}
use sd_practice_qr_code_gene.Cluster.Node
use sd_practice_qr_code_gene.Cluster.Node.{Node, get_stats}
use sd_practice_qr_code_gene.Cluster.Node.Serves.{start-Agrees}
use sd_practice_qr_code_gene.Cluster.Node.Metrics.{handle_all, handle_all-metrics}
use sd_practice_qr_code_gene.Cluster.Router.{
  Nodes, KeyPath, reaches, no_route, Exchange, answered, refused, unanswered, node_url, url_of_node,
  set_key, get_key,
}
use sd_practice_qr_code_gene.Cluster.Router.Settings.{
  Router, url_of, start, read_urls, split, strip, lstrip, is_space, cons_first, put_url, node_id_of,
  last_part, before_colon, without_dc,
}
use sd_practice_qr_code_gene.Cluster.Router.Routing.{node_url-total}
use sd_practice_qr_code_gene.Cluster.Router.Served.{
  IsServing, Finds, limited, read_reply, get_key-set_key,
}
use sd_practice_qr_code_gene.Cluster.Router.Answers.{
  Reaches, route_all, start_all, route_all-returns,
}

abbrev test_hash : Text → ℕ
test_hash s = length s

fits_none : overflows none ≡ false
unfolding overflows
fits_none = refl

fits_one : overflows (some (pos 1)) ≡ false
unfolding overflows
fits_one = refl

abbrev calls : List Call
calls =
    sets (codes "a") (codes "1") (some (pos 1), fits_one) 5
    ∷ gets (codes "a") 6 7
    ∷ gets (codes "a") 2000006 2000007
    ∷ deletes (codes "a")
    ∷ []

handle_all-metrics_example :
    (n : Node) × (handle_all (Node.start (codes "node1") 1) calls ≡ some n)
    × (n.hits_total ≡ (get_stats n).hits)
    × (n.misses_total ≡ (get_stats n).misses)
    × (n.evictions_total ≡ (get_stats n).evictions)
    × (n.size_gauge ≡ (get_stats n).size)
    × (n.capacity_gauge ≡ (get_stats n).capacity)
handle_all-metrics_example = handle_all-metrics (codes "node1") 1 calls

abbrev settings : Text
settings = codes "http://dc-a:1, ,http://b"

node_url-total_example :
    let r = start test_hash settings (codes "ring") 2 in
    ((r.node_urls ≡ []) × (node_url test_hash r (codes "k") ≡ none))
    ⊎ ((node_id base : Text) × (node_url test_hash r (codes "k") ≡ some (node_id, base))
        × (node_for_key test_hash (codes "k") r.hash_ring ≡ Ring.ok node_id)
        × (url_of node_id r.node_urls ≡ some base))
node_url-total_example =
    node_url-total test_hash settings (codes "ring") 2 (codes "k") (omega arith)

settings_named : (start test_hash settings (codes "ring") 2).node_urls ≢ []
unfolding start read_urls split strip lstrip is_space cons_first put_url node_id_of last_part
    before_colon without_dc text_dec
settings_named e = cons-ne-nil _ _ e

abbrev boot : List (Text × Text × ℕ)
boot = (codes "http://dc-a:1", codes "a", 1) ∷ (codes "http://b", codes "b", 2) ∷ []

abbrev exchanges : List (Exchange × Call)
exchanges =
    (answered, sets (codes "k") (codes "1") (none, fits_none) 5)
    ∷ (unanswered, deletes (codes "k"))
    ∷ (refused, gets (codes "k") 6 7)
    ∷ []

-- A key that starts with `?` is no part of the path.
abbrev test_path : Text → KeyPath
test_path [] = no_route 404
test_path (c ∷ s) = if c == 63 then no_route 404 else reaches (c ∷ s)

exchanges_reach : All (λ c. Reaches test_path c.1) exchanges
unfolding Reaches
exchanges_reach = ((codes "k", refl), ((codes "k", refl), ((codes "k", refl), tt)))

route_all-returns_example :
    (nodes : Nodes) × (route_all test_hash test_path
        (start test_hash settings (codes "ring") 2)
        (start_all boot)
        exchanges
      ≡ some nodes)
    × IsServing nodes
route_all-returns_example =
    route_all-returns test_hash test_path settings (codes "ring") 2 boot exchanges (omega arith)
      settings_named exchanges_reach

abbrev one_node : Router
one_node = record {
  node_urls = (codes "a", codes "u") ∷ [];
  hash_ring = record {
    positions = 3 ∷ [];
    ring_map = (3, codes "a") ∷ [];
    nodes = codes "a" ∷ [];
    virtual_nodes = 1;
    strategy = Ring.ring;
  };
}

abbrev node_a : Node
node_a = Node.start (codes "a") 1

abbrev nodes_a : Nodes
nodes_a = Dict.put Dict.empty (codes "u") node_a

k_routed : node_url test_hash one_node (codes "k") ≡ some (codes "a", codes "u")
unfolding node_url url_of_node node_for_key dispatch get_node Ring.bisect_right Ring.owner_at
    Ring.lookup url_of text_dec
k_routed = refl

a_answers : Dict.get nodes_a (codes "u") ≡ some node_a
unfolding text_dec
a_answers = Dict.get-put Dict.empty (codes "u") (codes "u") node_a

time_left : Finds 5 6 7 (some (pos 1)) (some (some (pos 0)))
time_left = limited 1 0 (omega arith) (omega arith) (omega arith) (omega arith)

get_key-set_key_example :
    (nodes' nodes'' : Nodes) × (set_key test_hash test_path one_node nodes_a answered
        (codes "k")
        (record { value = codes "v"; ttl = some (pos 1) })
        5
      ≡ some (nodes', ok (record { key = codes "k"; node = codes "a" })))
    × (get_key test_hash test_path one_node nodes' answered (codes "k") 6 7
        ≡ some (nodes'', read_reply (codes "k") (codes "v") (some (some (pos 0)))))
unfolding Node.start
get_key-set_key_example =
    get_key-set_key test_hash test_path one_node (codes "k") (codes "a") (codes "u") refl nodes_a
      node_a (nothing_stored 1) (codes "v") (some (pos 1)) 5 6 7 (some (some (pos 0))) k_routed
      a_answers (start-Agrees (codes "a") 1) fits_one time_left
