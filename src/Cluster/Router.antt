-- ===== src/Cluster/Router.antt =====
-- distributed_cache/scaffold/app/router_api.py: the settings, and the handlers of the router over the
-- nodes. `hash` is that of Ring. `none` is an exception that the handler does not catch.
pub mod Settings
pub mod Routing
pub mod Served
pub mod Answers
use sd_practice_qr_code_gene.Base.{ℕ, ◌+◌, Bool, Option, none, some, List, [], ◌∷◌, ite, map}
use sd_practice_qr_code_gene.Base.Dict
use sd_practice_qr_code_gene.Base.Dict.{Dict}
use sd_practice_qr_code_gene.Base.Text.{Text, codes, text_dec}
use sd_practice_qr_code_gene.Lru.{Stats}
use sd_practice_qr_code_gene.Ring.{
  HashRing, Result, value_error, key_error, index_error, node_for_key,
}
use sd_practice_qr_code_gene.Ring
use sd_practice_qr_code_gene.Cluster.{
  CacheSetRequest, CacheSetResponse, CacheGetResponse, CacheDeleteResponse, RingResponse,
  ErrorResponse, Reply, ok, json, detail,
}
use sd_practice_qr_code_gene.Cluster.Node
use sd_practice_qr_code_gene.Cluster.Node.{Node}
use sd_practice_qr_code_gene.Cluster.Router.Settings.{Router, url_of}

-- The nodes that answer, by their URL.
abbrev pub Nodes : Type 0
Nodes = Dict Node

-- What the libraries make of `f"{base}/cache/{key}"`, into which the key goes as it is: the path of a
-- node's handler with a key, which need not be the same; one that has no route at the node, which then
-- answers with a status; or no URL, at which the client raises before it sends anything.
pub data KeyPath : Type 0 where
  reaches : Text → KeyPath
  no_route : ℕ → KeyPath
  invalid : KeyPath

-- What becomes of a request: an answer, or a `RequestError` before or after the node served it.
pub data Exchange : Type 0 where
  answered refused unanswered : Exchange

-- One request to a node: what the node does, what the router makes of the reply, and its answer to
-- a `RequestError`.
unfoldable pub served :
    {A : Type 0}
    → Nodes
    → Text
    → Exchange
    → (Reply A → Option (Reply A))
    → Reply A
    → Option (Node × Reply A)
    → Option (Nodes × Reply A)
served nodes base answered receive unreachable none = none
served nodes base answered receive unreachable (some (n, a)) = elim (receive a) [
  | none ↦ none
  | some b ↦ some (Dict.put nodes base n, b)
]
served nodes base refused receive unreachable o = some (nodes, unreachable)
served nodes base unanswered receive unreachable none = some (nodes, unreachable)
served nodes base unanswered receive unreachable (some (n, a)) =
    some (Dict.put nodes base n, unreachable)

-- The request at the node of a URL, if one answers there.
unfoldable pub sent :
    {A : Type 0}
    → Nodes
    → Text
    → Exchange
    → (Reply A → Option (Reply A))
    → Reply A
    → (Node → Option (Node × Reply A))
    → Option (Nodes × Reply A)
sent nodes base exchange receive unreachable request = elim (Dict.get nodes base) [
  | none ↦ some (nodes, unreachable)
  | some n ↦ served nodes base exchange receive unreachable (request n)
]

unfoldable pub forward :
    {A : Type 0}
    → Nodes
    → Text
    → Exchange
    → (Reply A → Option (Reply A))
    → Reply A
    → (Text → Node → Option (Node × Reply A))
    → KeyPath
    → Option (Nodes × Reply A)
forward nodes base exchange receive unreachable request (reaches key) =
    sent nodes base exchange receive unreachable (request key)
forward nodes base exchange receive unreachable request (no_route status) =
    sent nodes base exchange receive unreachable (λ n. some (n, detail status))
forward nodes base exchange receive unreachable request invalid = none

-- `CacheSetResponse(**r.json())`, whatever the status
unfoldable pub receive_set : Reply CacheSetResponse → Option (Reply CacheSetResponse)
receive_set (ok a) = some (ok a)
receive_set (detail status) = none
receive_set (json status e) = elim e.node [
  | none ↦ none
  | some node ↦ some (ok (record { key = e.key; node = node }))
]

-- `CacheDeleteResponse(**r.json())`, whatever the status
unfoldable pub receive_delete : Reply CacheDeleteResponse → Option (Reply CacheDeleteResponse)
receive_delete (ok a) = some (ok a)
receive_delete (detail status) = none
receive_delete (json status e) = some (ok (record { key = e.key }))

-- The reply of a node is passed on with its status.
unfoldable pub receive_get : Reply CacheGetResponse → Option (Reply CacheGetResponse)
receive_get a = some a

unfoldable pub node_unreachable : {A : Type 0} → Text → Text → Reply A
node_unreachable key node_id =
    json 503 (record { error = codes "node_unreachable"; key = key; node = some node_id })

module _ (hash : Text → ℕ) (r : Router) where
  -- `_node_url(key)`, given the node
  unfoldable pub url_of_node : Result Text → Option (Text × Text)
  url_of_node (Ring.ok node_id) = elim (url_of node_id r.node_urls) [
    | none ↦ none
    | some base ↦ some (node_id, base)
  ]
  url_of_node value_error = none
  url_of_node key_error = none
  url_of_node index_error = none

  unfoldable pub node_url : Text → Option (Text × Text)
  node_url key = url_of_node (node_for_key hash key r.hash_ring)

  unfoldable pub ring_inspect : Text → Option RingResponse
  ring_inspect key = elim (node_for_key hash key r.hash_ring) [
    | Ring.ok node_id ↦
        some (record { key = key; node = node_id; virtual_nodes = Ring.virtual_count r.hash_ring })
    | value_error ↦ none
    | key_error ↦ none
    | index_error ↦ none
  ]

module _ (hash : Text → ℕ) (path : Text → KeyPath) (r : Router) where
  unfoldable pub set_key :
      Nodes → Exchange → Text → CacheSetRequest → ℕ → Option (Nodes × Reply CacheSetResponse)
  set_key nodes exchange key body now = elim (node_url hash r key) [
    | none ↦ none
    | some (node_id, base) ↦
        forward nodes base exchange receive_set (node_unreachable key node_id)
          (λ k n. Node.set_key n k body now) (path key)
  ]

  unfoldable pub get_key : Nodes → Exchange → Text → ℕ → ℕ → Option (Nodes × Reply CacheGetResponse)
  get_key nodes exchange key now later = elim (node_url hash r key) [
    | none ↦ none
    | some (node_id, base) ↦
        forward nodes base exchange receive_get (node_unreachable key node_id)
          (λ k n. Node.get_key n k now later) (path key)
  ]

  unfoldable pub delete_key : Nodes → Exchange → Text → Option (Nodes × Reply CacheDeleteResponse)
  delete_key nodes exchange key = elim (node_url hash r key) [
    | none ↦ none
    | some (node_id, base) ↦
        forward nodes base exchange receive_delete (node_unreachable key node_id)
          (λ k n. Node.delete_key n k) (path key)
  ]

unfoldable pub add_stats : Stats → Stats → Stats
add_stats t s = record {
  hits = t.hits + s.hits;
  misses = t.misses + s.misses;
  evictions = t.evictions + s.evictions;
  size = t.size + s.size;
  capacity = t.capacity + s.capacity;
}

-- What one node adds to the totals: nothing, unless it answers.
unfoldable pub count_node : Nodes → Text → Exchange → Stats → Stats
count_node nodes base answered totals = elim (Dict.get nodes base) [
  | none ↦ totals
  | some n ↦ add_stats totals (Node.get_stats n)
]
count_node nodes base refused totals = totals
count_node nodes base unanswered totals = totals

unfoldable pub count_nodes : Nodes → (Text → Exchange) → List (Text × Text) → Stats → Stats
count_nodes nodes exchange [] totals = totals
count_nodes nodes exchange ((node_id, base) ∷ urls) totals =
    count_nodes nodes exchange urls (count_node nodes base (exchange base) totals)

unfoldable pub get_stats : Router → Nodes → (Text → Exchange) → Stats
get_stats r nodes exchange =
    count_nodes nodes exchange r.node_urls
      (record { hits = 0; misses = 0; evictions = 0; size = 0; capacity = 0 })
