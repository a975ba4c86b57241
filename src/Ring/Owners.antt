-- ===== src/Ring/Owners.antt =====
-- Which node a key is given to, and how a new node changes that.
use sd_practice_qr_code_gene.Base.{
  ℕ, zero, suc, ◌+◌, ◌%◌, false, Option, none, some, List, [], ◌∷◌, ◌≡◌, ◌≢◌, ◌⊎◌, inl, inr, ◌==◌,
  if◌then◌else◌, length, get_elem?, arith, refl, ◌∙◌,
}
use sd_practice_qr_code_gene.Base.Text.{Text}
use sd_practice_qr_code_gene.Ring.{
  HashRing, Result, ok, value_error, bisect_right, lookup, virtual_position, add_virtual, add_loop,
  add_node, owner_at, get_node,
}
use sd_practice_qr_code_gene.Ring.Bisect.{
  successor, successor-cons, first_above, get_elem?-successor, successor-insort,
}

-- The answer for a position, or for an empty ring.
owner_of : List (ℕ × Text) → Option ℕ → Result Text
unfolding owner_at
owner_of m none = value_error
owner_of m (some h) = owner_at m (some h)

-- The owner of a hash value: the node of its clockwise successor.
pub owner : HashRing → ℕ → Result Text
owner r h = owner_of r.ring_map (successor h r.positions)

owner_of-successor :
    (m : List (ℕ × Text)) (h : ℕ) (ps : List ℕ)
    → (if length ps == 0
        then value_error
        else owner_at m (get_elem? ps (bisect_right ps h % length ps)))
      ≡ owner_of m (successor h ps)
unfolding owner_of
owner_of-successor m h [] = unfold successor first_above in refl
owner_of-successor m h (p ∷ ps) =
    let some_position : (suc (length ps) == 0) ≡ false = ground arith in
    rw (some_position, get_elem?-successor h p ps)
      (owner_some m (successor h (p ∷ ps)) (successor-cons h p ps))
  where
    owner_some : (m : List (ℕ × Text)) (o : Option ℕ) → o ≢ none → owner_at m o ≡ owner_of m o
    owner_some m none ne = absurd (ne refl)
    owner_some m (some x) ne = refl

owner_of-new :
    (x : ℕ) (node_id : Text) (m : List (ℕ × Text)) (o : Option ℕ)
    → (owner_of ((x, node_id) ∷ m) o ≡ ok node_id) ⊎ (owner_of ((x, node_id) ∷ m) o ≡ owner_of m o)
unfolding owner_of lookup
owner_of-new x node_id m none = inr refl
owner_of-new x node_id m (some y) = ground arith

owner_of_self :
    (x : ℕ) (node_id : Text) (m : List (ℕ × Text))
    → owner_of ((x, node_id) ∷ m) (some x) ≡ ok node_id
unfolding owner_of lookup
owner_of_self x node_id m = ground arith

pub owner-some :
    (r : HashRing) (h x : ℕ) (node : Text)
    → successor h r.positions ≡ some x
    → lookup x r.ring_map ≡ some node
    → owner r h ≡ ok node
unfolding owner owner_of
owner-some r h x node found here = rw found (ground arith)

pub owner-none : (r : HashRing) (h : ℕ) → successor h r.positions ≡ none → owner r h ≡ value_error
unfolding owner owner_of
owner-none r h e = rw e

module _ (hash : Text → ℕ) where
  -- A look-up is the owner of the key's hash.
  pub get_node-owner : (key : Text) (r : HashRing) → get_node hash key r ≡ owner r (hash key)
  unfolding get_node owner
  get_node-owner key r = owner_of-successor r.ring_map (hash key) r.positions

  -- One virtual node moves a hash value to its own node or not at all.
  add_virtual-owner :
      (node_id : Text) (i h : ℕ) (r : HashRing)
      → (owner (add_virtual hash node_id i r) h ≡ ok node_id)
        ⊎ (owner (add_virtual hash node_id i r) h ≡ owner r h)
  unfolding add_virtual owner
  add_virtual-owner node_id i h r =
      let x = virtual_position hash node_id i in
      elim (successor-insort h x r.positions) [
        | inl new ↦ inl (rw new (owner_of_self x node_id r.ring_map))
        | inr old ↦ rw old (owner_of-new x node_id r.ring_map (successor h r.positions))
      ]

  add_loop-owner :
      (node_id : Text) (n i h : ℕ) (r : HashRing)
      → (owner (add_loop hash node_id n i r) h ≡ ok node_id)
        ⊎ (owner (add_loop hash node_id n i r) h ≡ owner r h)
  unfolding add_loop
  add_loop-owner node_id zero i h r = inr refl
  add_loop-owner node_id (suc n) i h r =
      elim (add_loop-owner node_id n (i + 1) h (add_virtual hash node_id i r)) [
        | inl new ↦ inl new
        | inr same ↦ elim (add_virtual-owner node_id i h r) [
          | inl new ↦ inl (same ∙ new)
          | inr old ↦ inr (same ∙ old)
        ]
      ]

-- Consistent hashing: a new node takes keys for itself, and moves none between the other nodes.
pub add_node-get_node :
    (hash : Text → ℕ) (node_id key : Text) (r : HashRing)
    → (get_node hash key (add_node hash node_id r) ≡ ok node_id)
      ⊎ (get_node hash key (add_node hash node_id r) ≡ get_node hash key r)
unfolding add_node owner
add_node-get_node hash node_id key r =
    rw (get_node-owner hash key r, get_node-owner hash key (add_node hash node_id r))
      (add_loop-owner hash node_id r.virtual_nodes 0 (hash key) r)
