-- ===== src/Lru/Recent.antt =====
-- The cache as a list of entries, the most recently used first.
use sd_practice_qr_code_gene.Base.{
  ℕ, ◌+◌, Bool, true, false, Option, none, some, List, [], ◌∷◌, leb, if◌then◌else◌, ite, length,
}
use sd_practice_qr_code_gene.Base.Int.{ℤ}
use sd_practice_qr_code_gene.Base.Text.{Text, text_dec}
use sd_practice_qr_code_gene.Lru.{
  Answer, found, cache_miss, cache_expired, is_expired, ttl_remaining, expiry,
}
use sd_practice_qr_code_gene.Lru.Links.{Entry}

pub record Recent : Type 0 where
  pub capacity : ℕ
  pub items : List Entry
  pub hits : ℕ
  pub misses : ℕ
  pub evictions : ℕ

unfoldable pub find : Text → List Entry → Option Entry
find k [] = none
find k (e ∷ es) = ite (text_dec e.key k) (some e) (find k es)

unfoldable pub drop_key : Text → List Entry → List Entry
drop_key k [] = []
drop_key k (e ∷ es) = let rest = drop_key k es in ite (text_dec e.key k) es (e ∷ rest)

abbrev pub drop_last {ℓ} : {A : Type ℓ} → List A → List A
drop_last [] = []
drop_last (x ∷ []) = []
drop_last (x ∷ y ∷ l) = x ∷ drop_last (y ∷ l)

unfoldable pub delete : Recent → Text → Recent × Bool
delete s key = elim (find key s.items) [
  | none ↦ (s, false)
  | some e ↦ (record s { items = drop_key key s.items }, true)
]

unfoldable pub use_entry : Recent → Text → Entry → ℕ → ℕ → Recent × Answer
use_entry s key e now later =
    if is_expired e.expires_at now
    then (record s { items = drop_key key s.items; misses = s.misses + 1 }, cache_expired)
    else (
      record s { items = e ∷ drop_key key s.items; hits = s.hits + 1 },
      found e.value (ttl_remaining e.expires_at later),
    )

unfoldable pub get : Recent → Text → ℕ → ℕ → Recent × Answer
get s key now later = elim (find key s.items) [
  | none ↦ (record s { misses = s.misses + 1 }, cache_miss)
  | some e ↦ use_entry s key e now later
]

-- The least recently used entry makes room.
unfoldable pub evict : Recent → Recent
evict s =
    if leb s.capacity (length s.items)
    then record s { items = drop_last s.items; evictions = s.evictions + 1 }
    else s

unfoldable pub push : Recent → Entry → Recent
push s e = record s { items = e ∷ s.items }

unfoldable pub set : Recent → Text → Text → Option ℤ → ℕ → Recent
set s key value ttl now =
    let e : Entry = record { key = key; value = value; expires_at = expiry ttl now } in
    elim (find key s.items) [
      | none ↦ push (evict s) e
      | some old ↦ record s { items = e ∷ drop_key key s.items }
    ]
