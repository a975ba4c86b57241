-- ===== src/Ring/Total.antt =====
-- The ring stays well-formed, and every look-up finds a node of it.
use mathlib.Core.List.{head?}
use sd_practice_qr_code_gene.Base.{
  ℕ, zero, suc, ◌+◌, none, some, List, [], ◌∷◌, ◌≡◌, ◌≢◌, ◌⊎◌, inl, inr, leb, ◌==◌, arith, refl,
  All, Bool-cases, ◌∙◌, Option-cases, if_pos, if_neg,
}
use sd_practice_qr_code_gene.Base.Text.{In, Text, text_dec}
use sd_practice_qr_code_gene.Ring.{
  HashRing, ok, value_error, insort, lookup, discard, add, virtual_position, add_virtual, add_loop,
  add_node, get_node,
}
use sd_practice_qr_code_gene.Ring.Bisect.{
  IsSorted, insort-IsSorted, insort-nil, insort-cons, successor, successor-cons, first_above,
}
use sd_practice_qr_code_gene.Ring.Owners.{get_node-owner, owner-some, owner-none}

-- The position is mapped to one of the nodes.
abbrev pub IsMapped : List (ℕ × Text) → List Text → ℕ → Type 0
IsMapped m nodes h = (node : Text) × (lookup h m ≡ some node) × In node nodes

pub record IsRing (r : HashRing) : Type 0 where
  pub sorted : IsSorted r.positions
  pub mapped : All (IsMapped r.ring_map r.nodes) r.positions

IsMapped-new :
    (m : List (ℕ × Text)) (nodes : List Text) (node_id : Text) (x h : ℕ)
    → In node_id nodes
    → IsMapped m nodes h
    → IsMapped ((x, node_id) ∷ m) nodes h
unfolding lookup
IsMapped-new m nodes node_id x h own (node, found, known) = elim (Bool-cases (x == h)) [
  | inl same ↦ (node_id, rw same, own)
  | inr other ↦ (node, rw other found, known)
]

All-IsMapped-new :
    (m : List (ℕ × Text)) (nodes : List Text) (node_id : Text) (x : ℕ) (ps : List ℕ)
    → In node_id nodes
    → All (IsMapped m nodes) ps
    → All (IsMapped ((x, node_id) ∷ m) nodes) ps
All-IsMapped-new m nodes node_id x [] own a = tt
All-IsMapped-new m nodes node_id x (p ∷ ps) own (a, as') =
    (IsMapped-new m nodes node_id x p own a, All-IsMapped-new m nodes node_id x ps own as')

All-insort {ℓ} : (P : ℕ → Type ℓ) (x : ℕ) (ys : List ℕ) → P x → All P ys → All P (insort ys x)
All-insort P x [] h a = rw (insort-nil x) (h, tt)
All-insort P x (y ∷ ys) h (a, as') = rw (insort-cons x y ys) (elim (Bool-cases (leb y x)) [
  | inl before ↦ rw before (a, All-insort P x ys h as')
  | inr after ↦ rw after (h, (a, as'))
])

In-discard : (x y : Text) (ys : List Text) → x ≢ y → In x ys → In x (discard y ys)
unfolding discard
In-discard x y [] ne h = absurd h
In-discard x y (z ∷ zs) ne (inl e) = elim (text_dec z y) [
  | yes p ↦ absurd (ne (e ∙ p))
  | no p ↦ rw (if_neg (text_dec z y) p (discard y zs) (z ∷ discard y zs)) (inl e)
]
In-discard x y (z ∷ zs) ne (inr h) = elim (text_dec z y) [
  | yes p ↦ rw (if_pos (text_dec z y) p (discard y zs) (z ∷ discard y zs)) (In-discard x y zs ne h)
  | no p ↦
      rw (if_neg (text_dec z y) p (discard y zs) (z ∷ discard y zs)) (inr (In-discard x y zs ne h))
]

pub In-add : (x y : Text) (ys : List Text) → In x ys → In x (add y ys)
unfolding add
In-add x y ys h = elim (text_dec x y) [ yes e ↦ inl e | no ne ↦ inr (In-discard x y ys ne h) ]

All-nodes :
    (m : List (ℕ × Text)) (y : Text) (nodes : List Text) (ps : List ℕ)
    → All (IsMapped m nodes) ps
    → All (IsMapped m (add y nodes)) ps
All-nodes m y nodes [] a = tt
All-nodes m y nodes (p ∷ ps) ((node, found, known), as') =
    ((node, found, In-add node y nodes known), All-nodes m y nodes ps as')

module _ {ℓ} (P : ℕ → Type ℓ) (h : ℕ) where
  All-first_above : (ps : List ℕ) (x : ℕ) → All P ps → first_above h ps ≡ some x → P x
  unfolding first_above
  All-first_above [] x a e = absurd (cc)
  All-first_above (p ∷ ps) x (a, as') e = elim (Bool-cases (leb p h)) [
    | inl low ↦ All-first_above ps x as' (rw low at e)
    | inr high ↦ let same : p ≡ x = ground arith in rw (← same) a
  ]

  All-head : (ps : List ℕ) (x : ℕ) → All P ps → head? ps ≡ some x → P x
  All-head [] x a e = absurd (cc)
  All-head (p ∷ ps) x (a, as') e = let same : p ≡ x = cc in rw (← same) a

  -- What holds of every position holds of the successor.
  All-successor : (ps : List ℕ) (x : ℕ) → All P ps → successor h ps ≡ some x → P x
  unfolding successor
  All-successor ps x a e = elim (Option-cases (first_above h ps)) [
    | inr (y, found) ↦ All-first_above ps x a (ground arith)
    | inl none_above ↦ All-head ps x a (ground arith)
  ]

module _ (hash : Text → ℕ) (node_id : Text) where
  add_loop-IsRing :
      (n i : ℕ) (r : HashRing)
      → In node_id r.nodes
      → IsRing r
      → IsRing (add_loop hash node_id n i r)
  unfolding add_loop add_virtual lookup
  add_loop-IsRing zero i r own v = v
  add_loop-IsRing (suc n) i r own v =
      let x = virtual_position hash node_id i in
      add_loop-IsRing n (i + 1) (add_virtual hash node_id i r) own (record {
        sorted = insort-IsSorted x r.positions v.sorted;
        mapped =
            All-insort (IsMapped ((x, node_id) ∷ r.ring_map) r.nodes) x r.positions
              (node_id, ground arith, own)
              (All-IsMapped-new r.ring_map r.nodes node_id x r.positions own v.mapped);
      })

  add_loop-nodes :
      (n i : ℕ) (ns : List Text) (r : HashRing)
      → add_loop hash node_id n i (record r { nodes = ns })
        ≡ record (add_loop hash node_id n i r) { nodes = ns }
  unfolding add_loop add_virtual
  add_loop-nodes zero i ns r = refl
  add_loop-nodes (suc n) i ns r = add_loop-nodes n (i + 1) ns (add_virtual hash node_id i r)

  pub nodes-add_loop : (n i : ℕ) (r : HashRing) → (add_loop hash node_id n i r).nodes ≡ r.nodes
  unfolding add_loop add_virtual
  nodes-add_loop zero i r = refl
  nodes-add_loop (suc n) i r = nodes-add_loop n (i + 1) (add_virtual hash node_id i r)

-- Adding a node keeps the ring sorted, with every position mapped to a node.
pub add_node-IsRing :
    (hash : Text → ℕ) (node_id : Text) (r : HashRing) → IsRing r → IsRing (add_node hash node_id r)
unfolding add_node add
add_node-IsRing hash node_id r v =
    let own : In node_id (add node_id r.nodes) = inl refl in
    rw
      (
        nodes-add_loop hash node_id r.virtual_nodes 0 r,
        ← add_loop-nodes hash node_id r.virtual_nodes 0 (add node_id r.nodes) r,
      )
      (add_loop-IsRing hash node_id r.virtual_nodes 0 (record r { nodes = add node_id r.nodes }) own
        (record {
          sorted = v.sorted;
          mapped = All-nodes r.ring_map node_id r.nodes r.positions v.mapped;
        }))

no_positions : (h : ℕ) (ps : List ℕ) → successor h ps ≡ none → ps ≡ []
no_positions h [] e = refl
no_positions h (p ∷ ps) e = absurd (successor-cons h p ps e)

-- On a well-formed ring a look-up fails exactly when there are no positions, and otherwise finds
-- one of the ring's nodes.
pub get_node_total :
    (hash : Text → ℕ) (key : Text) (r : HashRing)
    → IsRing r
    → ((r.positions ≡ []) × (get_node hash key r ≡ value_error))
      ⊎ ((node : Text) × (get_node hash key r ≡ ok node) × In node r.nodes)
get_node_total hash key r v = elim (Option-cases (successor (hash key) r.positions)) [
  | inl none_left ↦ inl (
    no_positions (hash key) r.positions none_left,
    get_node-owner hash key r ∙ owner-none r (hash key) none_left,
  )
  | inr (x, found) ↦
      let (node, here, known) =
        All-successor (IsMapped r.ring_map r.nodes) (hash key) r.positions x v.mapped found in
      inr (node, get_node-owner hash key r ∙ owner-some r (hash key) x node found here, known)
]
