-- ===== src/Ring/Tests.antt =====
-- Runs of the ring's theorems, with the length of a text as its hash.
use sd_practice_qr_code_gene.Base.{ℕ, ◌∷◌, ◌≡◌, ◌⊎◌, [], length}
use sd_practice_qr_code_gene.Base.Text.{Text, codes}
use sd_practice_qr_code_gene.Ring.{HashRing, ring, ok, init, add_node, get_node}
use sd_practice_qr_code_gene.Ring.Owners.{add_node-get_node}
use sd_practice_qr_code_gene.Ring.Total.{IsRing}

abbrev test_hash : Text → ℕ
test_hash s = length s

-- A ring of one node, with three virtual nodes.
abbrev one_node : HashRing
one_node = add_node test_hash (codes "n1") (init 3 ring)

init-IsRing : IsRing (init 3 ring)
unfolding init
init-IsRing = record { sorted = tt; mapped = tt }

add_node-get_node_example :
    (get_node test_hash (codes "key") (add_node test_hash (codes "node2") one_node)
      ≡ ok (codes "node2"))
    ⊎ (get_node test_hash (codes "key") (add_node test_hash (codes "node2") one_node)
        ≡ get_node test_hash (codes "key") one_node)
add_node-get_node_example = add_node-get_node test_hash (codes "node2") (codes "key") one_node

abbrev one_position : HashRing
one_position = record {
  positions = 4 ∷ [];
  ring_map = (4, codes "n1") ∷ [];
  nodes = codes "n1" ∷ [];
  virtual_nodes = 1;
  strategy = ring;
}
