-- ===== src/Ring.antt =====
-- distributed_cache/scaffold/app/hash_ring.py. `hash` is `HashRing._hash` (MD5 of the UTF-8 text, as
-- a number), a parameter; a `set` of node ids is a list without repetition, and a `dict` a list of
-- pairs, the newest first, read by its first match.
mod Tests
pub mod Bisect
pub mod Owners
pub mod Total
pub mod Undo
pub mod Rendezvous
use sd_practice_qr_code_gene.Base.{
  ℕ, zero, suc, ◌+◌, ◌-◌, ◌/◌, ◌%◌, ◌<◌, ◌≤◌, Bool, true, false, Option, none, some, List, [], ◌∷◌,
  ◌++◌, leb, ltb, ◌==◌, if◌then◌else◌, ite, length, get_elem?, map, ◌&&◌,
}
use sd_practice_qr_code_gene.Base.Text.{Text, codes, text_dec}
use sd_practice_qr_code_gene.Base.Decimal.{decimal}

pub data HashStrategy : Type 0 where
  ring rendezvous : HashStrategy

pub record HashRing : Type 0 where
  pub positions : List ℕ
  pub ring_map : List (ℕ × Text)
  pub nodes : List Text
  pub virtual_nodes : ℕ
  pub strategy : HashStrategy

pub data Result {ℓ} (A : Type ℓ) : Type ℓ where
  ok : A → Result A
  value_error key_error index_error : Result A

unfoldable pub init : ℕ → HashStrategy → HashRing
init virtual_nodes strategy = record {
  positions = [];
  ring_map = [];
  nodes = [];
  virtual_nodes = virtual_nodes;
  strategy = strategy;
}

-- `bisect.bisect_left(xs, x)`: the first index whose entry is not below `x`, of a sorted list.
unfoldable pub bisect_left : List ℕ → ℕ → ℕ
bisect_left [] x = 0
bisect_left (y ∷ ys) x = let rest = bisect_left ys x in if ltb y x then suc rest else 0

-- `bisect.bisect_right(xs, x)`
unfoldable pub bisect_right : List ℕ → ℕ → ℕ
bisect_right [] x = 0
bisect_right (y ∷ ys) x = let rest = bisect_right ys x in if leb y x then suc rest else 0

-- `xs.insert(i, x)`
unfoldable pub insert_at : List ℕ → ℕ → ℕ → List ℕ
insert_at xs zero x = x ∷ xs
insert_at [] (suc i) x = x ∷ []
insert_at (y ∷ ys) (suc i) x = y ∷ insert_at ys i x

-- `bisect.insort(xs, x)`
unfoldable pub insort : List ℕ → ℕ → List ℕ
insort xs x = insert_at xs (bisect_right xs x) x

-- `xs.pop(i)`, in range
unfoldable pub pop_at : List ℕ → ℕ → List ℕ
pop_at [] i = []
pop_at (y ∷ ys) zero = ys
pop_at (y ∷ ys) (suc i) = y ∷ pop_at ys i

-- `d.get(k)`
unfoldable pub lookup : ℕ → List (ℕ × Text) → Option Text
lookup k [] = none
lookup k ((j, v) ∷ m) = if j == k then some v else lookup k m

-- `del d[k]`
unfoldable pub remove : ℕ → List (ℕ × Text) → List (ℕ × Text)
remove k [] = []
remove k ((j, v) ∷ m) = let rest = remove k m in if j == k then rest else (j, v) ∷ rest

-- `s.add(x)`, `s.discard(x)`
unfoldable pub discard : Text → List Text → List Text
discard x [] = []
discard x (y ∷ ys) = let rest = discard x ys in ite (text_dec y x) rest (y ∷ rest)

unfoldable pub add : Text → List Text → List Text
add x ys = x ∷ discard x ys

-- `if idx < len(self._ring) and self._ring[idx] == h: self._ring.pop(idx)`
unfoldable pub drop_position : List ℕ → ℕ → List ℕ
drop_position xs h =
    let idx = bisect_left xs h in
    elim (get_elem? xs idx) [ none ↦ xs | some x ↦ if x == h then pop_at xs idx else xs ]

-- `self._ring_map[self._ring[i]]`
unfoldable pub owner_at : List (ℕ × Text) → Option ℕ → Result Text
owner_at m none = index_error
owner_at m (some h) = elim (lookup h m) [ none ↦ key_error | some node ↦ ok node ]

-- `max(nodes, key=score)`: the first of the nodes with the highest score.
unfoldable pub best : (Text → ℕ) → Text → List Text → Text
best score x [] = x
best score x (y ∷ ys) = best score (if ltb (score x) (score y) then y else x) ys

unfoldable pub max_by : (Text → ℕ) → List Text → Result Text
max_by score [] = value_error
max_by score (x ∷ xs) = ok (best score x xs)

unfoldable pub virtual_count : HashRing → ℕ
virtual_count r = length r.positions

module _ (hash : Text → ℕ) where
  -- `self._hash(f"{node_id}:{i}")`
  unfoldable pub virtual_position : Text → ℕ → ℕ
  virtual_position node_id i = hash (node_id ++ codes ":" ++ decimal i)

  -- One round of the loop of `add_node`.
  unfoldable pub add_virtual : Text → ℕ → HashRing → HashRing
  add_virtual node_id i r =
      let h = virtual_position node_id i in
      record r { positions = insort r.positions h; ring_map = (h, node_id) ∷ r.ring_map }

  -- `for i in range(...)`, with the rounds left and the next index
  unfoldable pub add_loop : Text → ℕ → ℕ → HashRing → HashRing
  add_loop node_id zero i r = r
  add_loop node_id (suc n) i r = add_loop node_id n (i + 1) (add_virtual node_id i r)

  unfoldable pub add_node : Text → HashRing → HashRing
  add_node node_id r =
      let r' = add_loop node_id r.virtual_nodes 0 r in record r' { nodes = add node_id r'.nodes }

  unfoldable pub remove_virtual : Text → ℕ → HashRing → HashRing
  remove_virtual node_id i r =
      let h = virtual_position node_id i in
      elim (lookup h r.ring_map) [
        | none ↦ r
        | some owner ↦ record r {
          positions = drop_position r.positions h;
          ring_map = remove h r.ring_map;
        }
      ]

  unfoldable pub remove_loop : Text → ℕ → ℕ → HashRing → HashRing
  remove_loop node_id zero i r = r
  remove_loop node_id (suc n) i r = remove_loop node_id n (i + 1) (remove_virtual node_id i r)

  unfoldable pub remove_node : Text → HashRing → HashRing
  remove_node node_id r =
      let r' = remove_loop node_id r.virtual_nodes 0 r in
      record r' { nodes = discard node_id r'.nodes }

  unfoldable pub get_node : Text → HashRing → Result Text
  get_node key r =
      if length r.positions == 0
      then value_error
      else (let idx = bisect_right r.positions (hash key) % length r.positions in
          owner_at r.ring_map (get_elem? r.positions idx))

  unfoldable pub rendezvous_node : Text → HashRing → Result Text
  rendezvous_node key r = max_by (λ node_id. hash (node_id ++ codes ":" ++ key)) r.nodes

  unfoldable pub dispatch : HashStrategy → Text → HashRing → Result Text
  dispatch ring key r = get_node key r
  dispatch rendezvous key r = rendezvous_node key r

  unfoldable pub node_for_key : Text → HashRing → Result Text
  node_for_key key r = dispatch r.strategy key r
