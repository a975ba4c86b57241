-- ===== src/Cluster/Router/Settings.antt =====
-- distributed_cache/scaffold/app/router_api.py: what the router reads from its environment.
use sd_practice_qr_code_gene.Base.{
  ℕ, Bool, true, false, Option, none, some, List, [], ◌∷◌, leb, ◌==◌, ◌&&◌, ◌||◌, ite, reverse,
  if◌then◌else◌,
}
use sd_practice_qr_code_gene.Base.Text.{Text, codes, text_dec, lower}
use sd_practice_qr_code_gene.Ring.{HashRing, HashStrategy, ring, rendezvous, add_node}
use sd_practice_qr_code_gene.Ring

-- The white space of `str.strip`
unfoldable pub is_space : ℕ → Bool
is_space c =
    (leb 9 c && leb c 13)
    || (leb 28 c && leb c 32)
    || (c == 133)
    || (c == 160)
    || (c == 5760)
    || (leb 8192 c && leb c 8202)
    || (leb 8232 c && leb c 8233)
    || (c == 8239)
    || (c == 8287)
    || (c == 12288)

unfoldable pub lstrip : Text → Text
lstrip [] = []
lstrip (c ∷ s) = elim (is_space c) [ true ↦ lstrip s | false ↦ c ∷ s ]

-- `s.strip()`
unfoldable pub strip : Text → Text
strip s = reverse (lstrip (reverse (lstrip s)))

unfoldable pub cons_first : ℕ → List Text → List Text
cons_first c [] = (c ∷ []) ∷ []
cons_first c (part ∷ parts) = (c ∷ part) ∷ parts

-- `s.split(sep)` for one character
unfoldable pub split : ℕ → Text → List Text
split sep [] = [] ∷ []
split sep (c ∷ s) = let rest = split sep s in if c == sep then [] ∷ rest else cons_first c rest

-- `s.split("//")[-1]`, with the part that the scan is in and what is left to scan
unfoldable pub last_part : Text → Text → Text
last_part part [] = part
last_part part (x ∷ []) = part
last_part part (x ∷ y ∷ s) = elim (x == 47 && y == 47) [
  | true ↦ last_part s s
  | false ↦ last_part part (y ∷ s)
]

-- `s.split(":")[0]`
unfoldable pub before_colon : Text → Text
before_colon [] = []
before_colon (c ∷ s) = let rest = before_colon s in if c == 58 then [] else c ∷ rest

-- `s.replace("dc-", "")`
unfoldable pub without_dc : Text → Text
without_dc [] = []
without_dc (x ∷ []) = x ∷ []
without_dc (x ∷ y ∷ []) = x ∷ y ∷ []
without_dc (x ∷ y ∷ z ∷ s) = elim (x == 100 && y == 99 && z == 45) [
  | true ↦ without_dc s
  | false ↦ x ∷ without_dc (y ∷ z ∷ s)
]

unfoldable pub node_id_of : Text → Text
node_id_of url = without_dc (before_colon (last_part url url))

-- `NODE_URLS.get(node_id)`
unfoldable pub url_of : Text → List (Text × Text) → Option Text
url_of node_id [] = none
url_of node_id ((i, url) ∷ urls) = ite (text_dec i node_id) (some url) (url_of node_id urls)

-- `NODE_URLS[node_id] = url`: an id that is there keeps its place.
unfoldable pub put_url : Text → Text → List (Text × Text) → List (Text × Text)
put_url node_id url [] = (node_id, url) ∷ []
put_url node_id url ((i, u) ∷ urls) =
    let rest = put_url node_id url urls in
    ite (text_dec i node_id) ((i, url) ∷ urls) ((i, u) ∷ rest)

-- The loop over the parts of `NODE_URLS`.
unfoldable pub read_urls : List Text → List (Text × Text) → List (Text × Text)
read_urls [] urls = urls
read_urls (part ∷ parts) urls = elim (strip part) [
  | [] ↦ read_urls parts urls
  | c ∷ s ↦ read_urls parts (put_url (node_id_of (c ∷ s)) (c ∷ s) urls)
]

-- `HASH_STRATEGY`
unfoldable pub strategy_of : Text → HashStrategy
strategy_of env = ite (text_dec (lower env) (codes "rendezvous")) rendezvous ring

pub record Router : Type 0 where
  pub node_urls : List (Text × Text)
  pub hash_ring : HashRing

module _ (hash : Text → ℕ) where
  unfoldable pub add_nodes : List (Text × Text) → HashRing → HashRing
  add_nodes [] r = r
  add_nodes ((node_id, url) ∷ urls) r = add_nodes urls (add_node hash node_id r)

  -- The texts of `NODE_URLS` and of `HASH_STRATEGY`, and `VIRTUAL_NODES`.
  unfoldable pub start : Text → Text → ℕ → Router
  start raw_urls strategy virtual_nodes =
      let urls = read_urls (split 44 raw_urls) [] in
      record {
        node_urls = urls;
        hash_ring = add_nodes urls (Ring.init virtual_nodes (strategy_of strategy));
      }
