-- ===== src/Cluster/Router/Answers.antt =====
-- Any requests to the router, while nodes fail to be reached or to answer.
use sd_practice_qr_code_gene.Base.{
  ℕ, All, ◌<◌, ◌≢◌, Option, none, some, List, [], ◌∷◌, ◌≡◌, inl, inr, refl, Option-cases, sym, ◌∙◌,
}
use mathlib.Core.Option.{none-ne-some}
use sd_practice_qr_code_gene.Base.Dict
use sd_practice_qr_code_gene.Base.Dict.{Dict}
use sd_practice_qr_code_gene.Base.Text.{Text}
use sd_practice_qr_code_gene.Lru.Recent.{Recent}
use sd_practice_qr_code_gene.Lru.Runs.{Call, gets, sets, deletes, nothing_stored}
use sd_practice_qr_code_gene.Cluster.{Reply}
use sd_practice_qr_code_gene.Cluster.Node
use sd_practice_qr_code_gene.Cluster.Node.{Node}
use sd_practice_qr_code_gene.Cluster.Node.Serves.{
  Agrees, Serves, set-Serves, get-Serves, delete-Serves, start-Agrees,
}
use sd_practice_qr_code_gene.Cluster.Router.{
  Nodes, Exchange, answered, refused, unanswered, KeyPath, reaches, served, sent, forward, node_url,
  set_key, get_key, delete_key, receive_set, receive_get, receive_delete, node_unreachable,
}
use sd_practice_qr_code_gene.Cluster.Router.Settings.{Router, start}
use sd_practice_qr_code_gene.Cluster.Router.Routing.{node_url-total}
use sd_practice_qr_code_gene.Cluster.Router.Served.{IsServing, put-IsServing}

abbrev keep_nodes : {A : Type 0} → Option (Nodes × Reply A) → Option Nodes
keep_nodes none = none
keep_nodes (some (nodes, _)) = some nodes

-- The URL of a request takes its key to a handler of the node.
unfoldable pub Reaches : (Text → KeyPath) → Call → Type 0
Reaches path (gets key now later) = (k : Text) × (path key ≡ reaches k)
Reaches path (sets key value ttl now) = (k : Text) × (path key ≡ reaches k)
Reaches path (deletes key) = (k : Text) × (path key ≡ reaches k)

-- The nodes after one request, and what becomes of its exchange with the node.
unfoldable pub route :
    (Text → ℕ) → (Text → KeyPath) → Router → Nodes → Exchange → Call → Option Nodes
route hash path r nodes x (gets key now later) =
    keep_nodes (get_key hash path r nodes x key now later)
route hash path r nodes x (sets key value ttl now) =
    keep_nodes (set_key hash path r nodes x key (record { value = value; ttl = ttl.0 }) now)
route hash path r nodes x (deletes key) = keep_nodes (delete_key hash path r nodes x key)

unfoldable pub route_all :
    (Text → ℕ) → (Text → KeyPath) → Router → Nodes → List (Exchange × Call) → Option Nodes
route_all hash path r nodes [] = some nodes
route_all hash path r nodes ((x, call) ∷ calls) = elim (route hash path r nodes x call) [
  | none ↦ none
  | some nodes' ↦ route_all hash path r nodes' calls
]

-- Nodes just started, each with its URL, its id and its capacity.
unfoldable pub start_all : List (Text × Text × ℕ) → Nodes
start_all [] = Dict.empty
start_all ((base, node_id, capacity) ∷ more) =
    Dict.put (start_all more) base (Node.start node_id capacity)

start_all-IsServing : (boot : List (Text × Text × ℕ)) → IsServing (start_all boot)
unfolding start_all
start_all-IsServing [] = record {
  agree = λ base n e. absurd (none-ne-some n (sym (Dict.get-empty base) ∙ e));
}
start_all-IsServing ((base, node_id, capacity) ∷ more) =
    put-IsServing (start_all more) base (Node.start node_id capacity) (nothing_stored capacity)
      (start_all-IsServing more) (start-Agrees node_id capacity)

-- A forwarded request is answered, and the nodes serve on.
served-IsServing :
    {A : Type 0} (nodes : Nodes) (base : Text) (x : Exchange) (receive : Reply A → Option (Reply A))
    (unreachable : Reply A) (n : Node) (o : Option (Node × Reply A)) (s : Recent) (a b : Reply A)
    → IsServing nodes
    → Serves n o s a
    → receive a ≡ some b
    → (nodes' : Nodes) × (keep_nodes (served nodes base x receive unreachable o) ≡ some nodes')
      × IsServing nodes'
unfolding served
served-IsServing nodes base answered receive unreachable n o s a b v w e = (
  Dict.put nodes base w.after,
  rw (w.returns) (rw (e, served) refl),
  put-IsServing nodes base w.after s v w.agrees,
)
served-IsServing nodes base refused receive unreachable n o s a b v w e = (nodes, refl, v)
served-IsServing nodes base unanswered receive unreachable n o s a b v w e = (
  Dict.put nodes base w.after,
  rw (w.returns) refl,
  put-IsServing nodes base w.after s v w.agrees,
)

module _ (hash : Text → ℕ) (path : Text → KeyPath) (r : Router) (nodes : Nodes)
    (v : IsServing nodes) where
  -- A request at a node, where every node that serves returns and its reply is taken.
  sent-IsServing :
      {A : Type 0} (base : Text) (x : Exchange) (receive : Reply A → Option (Reply A))
      (unreachable : Reply A) (request : Node → Option (Node × Reply A))
      → ((n : Node) (s : Recent)
          → Agrees n s
          → (s' : Recent) × (a b : Reply A) × Serves n (request n) s' a × (receive a ≡ some b))
      → (nodes' : Nodes) × (keep_nodes (sent nodes base x receive unreachable request)
          ≡ some nodes')
        × IsServing nodes'
  unfolding sent
  sent-IsServing base x receive unreachable request serves =
      elim (Option-cases (Dict.get nodes base)) [
        | inl e ↦ (nodes, rw (e, sent) refl, v)
        | inr (n, e) ↦
            let (s, agrees) = v.agree base n e in
            let (s', a, b, w, taken) = serves n s agrees in
            rw (e, sent)
              (served-IsServing nodes base x receive unreachable n (request n) s' a b v w taken)
      ]

  route-IsServing :
      (x : Exchange) (call : Call)
      → ((key : Text) → (node_id base : Text) × (node_url hash r key ≡ some (node_id, base)))
      → Reaches path call
      → (nodes' : Nodes) × (route hash path r nodes x call ≡ some nodes') × IsServing nodes'
  unfolding route set_key get_key delete_key receive_set receive_get receive_delete forward Reaches
  route-IsServing x (gets key now later) routed (k, at) =
      let (node_id, base, e) = routed key in
      rw (e, at, get_key, route)
        (sent-IsServing base x receive_get (node_unreachable key node_id)
          (λ n. Node.get_key n k now later)
          (λ n s w. (_, _, _, get-Serves n s w k now later, refl)))
  route-IsServing x (sets key value ttl now) routed (k, at) =
      let (node_id, base, e) = routed key in
      rw (e, at, set_key, route)
        (sent-IsServing base x receive_set (node_unreachable key node_id)
          (λ n. Node.set_key n k (record { value = value; ttl = ttl.0 }) now)
          (λ n s w. (_, _, _, set-Serves n s w k value ttl.0 now ttl.1, refl)))
  route-IsServing x (deletes key) routed (k, at) =
      let (node_id, base, e) = routed key in
      rw (e, at, delete_key, route)
        (sent-IsServing base x receive_delete (node_unreachable key node_id)
          (λ n. Node.delete_key n k) (λ n s w. (_, _, _, delete-Serves n s w k, refl)))

route_all-IsServing :
    (hash : Text → ℕ) (path : Text → KeyPath) (r : Router) (nodes : Nodes)
    (calls : List (Exchange × Call))
    → IsServing nodes
    → All (λ c. Reaches path c.1) calls
    → ((key : Text) → (node_id base : Text) × (node_url hash r key ≡ some (node_id, base)))
    → (nodes' : Nodes) × (route_all hash path r nodes calls ≡ some nodes') × IsServing nodes'
unfolding route_all
route_all-IsServing hash path r nodes [] v reach routed = (nodes, refl, v)
route_all-IsServing hash path r nodes ((x, call) ∷ calls) v (here, reach) routed =
    let (nodes', e, v') = route-IsServing hash path r nodes v x call routed here in
    let (nodes'', e', v'') = route_all-IsServing hash path r nodes' calls v' reach routed in
    (nodes'', rw (e, route_all) e', v'')

-- With settings that name a node, and at least one virtual node for each: whatever nodes have been
-- started, whatever the requests, with TTLs that a float holds and with keys that the URL takes to a
-- handler of a node, if perhaps with another key, and whichever of them do not reach a node or are
-- not answered, no handler of the router or of a node raises, and the nodes go on serving.
pub route_all-returns :
    (hash : Text → ℕ) (path : Text → KeyPath) (raw_urls strategy : Text) (virtual_nodes : ℕ)
    (boot : List (Text × Text × ℕ)) (calls : List (Exchange × Call))
    → 0 < virtual_nodes
    → (start hash raw_urls strategy virtual_nodes).node_urls ≢ []
    → All (λ c. Reaches path c.1) calls
    → (nodes : Nodes) × (route_all hash path
          (start hash raw_urls strategy virtual_nodes)
          (start_all boot)
          calls
        ≡ some nodes)
      × IsServing nodes
route_all-returns hash path raw_urls strategy virtual_nodes boot calls positive named reach =
    route_all-IsServing hash path (start hash raw_urls strategy virtual_nodes) (start_all boot)
      calls (start_all-IsServing boot) reach
      (λ key. elim (node_url-total hash raw_urls strategy virtual_nodes key positive) [
        | inl (nothing, _) ↦ absurd (named nothing)
        | inr (node_id, base, e, _, _) ↦ (node_id, base, e)
      ])
