-- ===== src/Cluster/Router/Routing.antt =====
-- About the node and the URL of each key, whatever the router reads from its environment.
use sd_practice_qr_code_gene.Base.{
  ℕ, zero, suc, ◌+◌, ◌<◌, ◌≤◌, ◌≢◌, none, some, List, [], ◌∷◌, ◌≡◌, ◌⊎◌, inl, inr, refl, arith,
  length, sym, ◌∙◌, ap, if_pos, if_neg,
}
use mathlib.Core.Path.{subst}
use sd_practice_qr_code_gene.Base.Text.{In, Text, text_dec}
use sd_practice_qr_code_gene.Ring.{
  HashRing, HashStrategy, ring, rendezvous, ok, value_error, Result, add_node, add_loop,
  add_virtual, insert_at, insort, add, discard, node_for_key, dispatch, get_node, rendezvous_node,
}
use sd_practice_qr_code_gene.Ring
use sd_practice_qr_code_gene.Ring.Total.{
  IsRing, In-add, nodes-add_loop, add_node-IsRing, get_node_total,
}
use sd_practice_qr_code_gene.Ring.Rendezvous.{rendezvous_node-max}
use sd_practice_qr_code_gene.Cluster.Router.{node_url, url_of_node}
use sd_practice_qr_code_gene.Cluster.Router.Settings.{
  url_of, add_nodes, start, read_urls, split, strategy_of,
}

abbrev HasUrl : List (Text × Text) → Text → Type 0
HasUrl urls node_id = (base : Text) × (url_of node_id urls ≡ some base)

length-insert_at : (xs : List ℕ) (i x : ℕ) → length (insert_at xs i x) ≡ length xs + 1
unfolding insert_at
length-insert_at xs zero x = omega arith
length-insert_at [] (suc i) x = refl
length-insert_at (y ∷ ys) (suc i) x = omega (arith, length-insert_at ys i x)

In-discarded : (x y : Text) (zs : List Text) → In x (discard y zs) → In x zs
unfolding discard
In-discarded x y [] h = elim h [ ]
In-discarded x y (z ∷ zs) h = elim (text_dec z y) [
  | yes p ↦ inr (
      In-discarded x y zs
        (subst (λ l. In x l) (if_pos (text_dec z y) p (discard y zs) (z ∷ discard y zs)) h))
  | no p ↦
      elim (subst (λ l. In x l) (if_neg (text_dec z y) p (discard y zs) (z ∷ discard y zs)) h) [
        | inl e ↦ inl e
        | inr h' ↦ inr (In-discarded x y zs h')
      ]
]

module _ (hash : Text → ℕ) where
  length-add_loop :
      (node_id : Text) (n i : ℕ) (r : HashRing)
      → (length (add_loop hash node_id n i r).positions ≡ length r.positions + n)
        × ((add_loop hash node_id n i r).virtual_nodes ≡ r.virtual_nodes)
        × ((add_loop hash node_id n i r).strategy ≡ r.strategy)
  unfolding add_loop add_virtual insort
  length-add_loop node_id zero i r = (omega arith, refl, refl)
  length-add_loop node_id (suc n) i r =
      let (more, same, strategy) =
        length-add_loop node_id n (i + 1) (add_virtual hash node_id i r) in
      (
        omega (
          arith,
          more,
          length-insert_at r.positions
              (Ring.bisect_right r.positions (Ring.virtual_position hash node_id i))
              (Ring.virtual_position hash node_id i),
        ),
        same,
        strategy,
      )

  add_node_keeps :
      (node_id : Text) (r : HashRing)
      → (length (add_node hash node_id r).positions ≡ length r.positions + r.virtual_nodes)
        × ((add_node hash node_id r).virtual_nodes ≡ r.virtual_nodes)
        × ((add_node hash node_id r).strategy ≡ r.strategy)
        × ((add_node hash node_id r).nodes ≡ add node_id r.nodes)
  unfolding add_node
  add_node_keeps node_id r =
      let (more, same, strategy) = length-add_loop node_id r.virtual_nodes 0 r in
      (more, same, strategy, ap (add node_id) (nodes-add_loop hash node_id r.virtual_nodes 0 r))

  -- What the loop over the settings leaves: a ring that is no smaller, of the same strategy.
  add_nodes_keeps :
      (urls : List (Text × Text)) (r : HashRing)
      → IsRing r
      → IsRing (add_nodes hash urls r)
        × (length r.positions ≤ length (add_nodes hash urls r).positions)
        × ((add_nodes hash urls r).strategy ≡ r.strategy)
        × ((x : Text) → In x r.nodes → In x (add_nodes hash urls r).nodes)
  unfolding add_nodes
  add_nodes_keeps [] r v = (v, omega arith, refl, λ x h. h)
  add_nodes_keeps ((node_id, url) ∷ urls) r v =
      let (more, same, strategy, nodes) = add_node_keeps node_id r in
      let (v', more', strategy', kept) =
        add_nodes_keeps urls (add_node hash node_id r) (add_node-IsRing hash node_id r v) in
      (
        v',
        omega (arith, more, more'),
        strategy' ∙ strategy,
        λ x h. kept x (subst (λ l. In x l) (sym nodes) (In-add x node_id r.nodes h)),
      )

  In-add_nodes :
      (urls : List (Text × Text)) (r : HashRing) (x : Text)
      → In x (add_nodes hash urls r).nodes
      → In x r.nodes ⊎ HasUrl urls x
  unfolding add_nodes url_of add
  In-add_nodes [] r x h = inl h
  In-add_nodes ((node_id, url) ∷ urls) r x h =
      let (_, _, _, nodes) = add_node_keeps node_id r in
      elim (In-add_nodes urls (add_node hash node_id r) x h) [
        | inr (base, e) ↦ inr (elim (text_dec node_id x) [
          | yes p ↦ (url, if_pos (text_dec node_id x) p (some url) (url_of x urls))
          | no p ↦ (base, if_neg (text_dec node_id x) p (some url) (url_of x urls) ∙ e)
        ])
        | inl known ↦ elim (subst (λ l. In x l) nodes known) [
          | inl e ↦ inr (url, if_pos (text_dec node_id x) (sym e) (some url) (url_of x urls))
          | inr old ↦ inl (In-discarded x node_id r.nodes old)
        ]
      ]

  init-IsRing :
      (virtual_nodes : ℕ) (strategy : HashStrategy) → IsRing (Ring.init virtual_nodes strategy)
  unfolding Ring.init
  init-IsRing virtual_nodes strategy = record { sorted = tt; mapped = tt }

  -- At least one node means at least one position, and one node.
  first_node :
      (node_id url : Text) (urls : List (Text × Text)) (r : HashRing)
      → 0 < r.virtual_nodes
      → IsRing r
      → ((add_nodes hash ((node_id, url) ∷ urls) r).positions ≢ [])
        × ((add_nodes hash ((node_id, url) ∷ urls) r).nodes ≢ [])
  unfolding add_nodes add
  first_node node_id url urls r positive v =
      let (more, same, strategy, nodes) = add_node_keeps node_id r in
      let (v', more', strategy', kept) =
        add_nodes_keeps urls (add_node hash node_id r) (add_node-IsRing hash node_id r v) in
      let own : In node_id (add_nodes hash urls (add_node hash node_id r)).nodes =
        kept node_id (subst (λ l. In node_id l) (sym nodes) (inl refl)) in
      (
        λ e. absurd (omega (arith, more, more', positive, ap length e)),
        λ e. absurd (subst (λ l. In node_id l) e own),
      )

  -- A look-up by either strategy.
  dispatch_found :
      (strategy : HashStrategy) (key : Text) (r : HashRing)
      → IsRing r
      → r.positions ≢ []
      → r.nodes ≢ []
      → (node_id : Text) × (dispatch hash strategy key r ≡ ok node_id) × In node_id r.nodes
  unfolding dispatch
  dispatch_found ring key r v positions nodes = elim (get_node_total hash key r v) [
    | inl (none_left, _) ↦ absurd (positions none_left)
    | inr found ↦ found
  ]
  dispatch_found rendezvous key r v positions nodes = elim (rendezvous_node-max hash key r) [
    | inl (none_left, _) ↦ absurd (nodes none_left)
    | inr (node_id, found, own, _) ↦ (node_id, found, own)
  ]

  node_for_key_found :
      (urls : List (Text × Text)) (virtual_nodes : ℕ) (strategy : HashStrategy) (key : Text)
      → 0 < virtual_nodes
      → let r = add_nodes hash urls (Ring.init virtual_nodes strategy) in
        ((urls ≡ []) × (node_for_key hash key r ≡ value_error))
        ⊎ ((node_id : Text) × (node_for_key hash key r ≡ ok node_id) × HasUrl urls node_id)
  unfolding node_for_key dispatch Ring.init
  node_for_key_found [] virtual_nodes ring key positive =
      inl (refl, unfold add_nodes get_node in refl)
  node_for_key_found [] virtual_nodes rendezvous key positive =
      inl (refl, unfold add_nodes rendezvous_node Ring.max_by in refl)
  node_for_key_found ((i, url) ∷ urls) virtual_nodes strategy key positive =
      let init = Ring.init virtual_nodes strategy in
      let v = init-IsRing virtual_nodes strategy in
      let r = add_nodes hash ((i, url) ∷ urls) init in
      let (v', _, same, _) = add_nodes_keeps ((i, url) ∷ urls) init v in
      let (positions, nodes) = first_node i url urls init positive v in
      let (node_id, found, own) = dispatch_found strategy key r v' positions nodes in
      elim (In-add_nodes ((i, url) ∷ urls) init node_id own) [
        | inl impossible ↦ elim impossible [ ]
        | inr has ↦ inr (node_id, ap (λ st. dispatch hash st key r) same ∙ found, has)
      ]

-- Whatever the texts of the settings and the hash, and with at least one virtual node for each
-- node: if the settings name no node, no key has a URL; otherwise each key has the node that the
-- ring finds for it, and that node's URL.
pub node_url-total :
    (hash : Text → ℕ) (raw_urls strategy : Text) (virtual_nodes : ℕ) (key : Text)
    → 0 < virtual_nodes
    → let r = start hash raw_urls strategy virtual_nodes in
      ((r.node_urls ≡ []) × (node_url hash r key ≡ none))
      ⊎ ((node_id base : Text) × (node_url hash r key ≡ some (node_id, base))
          × (node_for_key hash key r.hash_ring ≡ ok node_id)
          × (url_of node_id r.node_urls ≡ some base))
unfolding start node_url url_of_node
node_url-total hash raw_urls strategy virtual_nodes key positive =
    let urls = read_urls (split 44 raw_urls) [] in
    elim (node_for_key_found hash urls virtual_nodes (strategy_of strategy) key positive) [
      | inl (nothing, raises) ↦ inl (nothing, rw (raises, node_url) refl)
      | inr (node_id, found, (base, here)) ↦
          inr (node_id, base, rw (found, node_url) (rw (here, url_of_node) refl), found, here)
    ]
