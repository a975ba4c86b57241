-- ===== src/Cluster/Router/Served.antt =====
-- About a value that is set and read through the router.
use sd_practice_qr_code_gene.Base.{zero, suc, none, ◌+◌, ◌*◌, ◌<◌, ◌≤◌}
use sd_practice_qr_code_gene.Base.{
  ℕ, Option, some, ◌≡◌, inl, inr, refl, arith, sym, ◌∙◌, ap, false, Option-cases, if_pos, if_neg,
}
use mathlib.Core.Path.{subst}
use mathlib.Core.Option.{some-injective}
use sd_practice_qr_code_gene.Base.Int.{ℤ, pos, negsuc, after_seconds, seconds_until}
use sd_practice_qr_code_gene.Base.Dict
use sd_practice_qr_code_gene.Base.Dict.{Dict}
use sd_practice_qr_code_gene.Base.Text.{Text, codes, text_dec}
use sd_practice_qr_code_gene.Lru.{overflows, is_expired, ttl_remaining, expiry}
use sd_practice_qr_code_gene.Lru.Recent
use sd_practice_qr_code_gene.Lru.Recent.{Recent, find, use_entry, push, drop_key}
use sd_practice_qr_code_gene.Cluster.{CacheGetResponse, Reply, ok, json}
use sd_practice_qr_code_gene.Cluster.Node.{Node}
use sd_practice_qr_code_gene.Cluster.Node.Serves.{Agrees, set-Serves, get-Serves, reply_of}
use sd_practice_qr_code_gene.Cluster.Router.{
  Nodes, KeyPath, reaches, answered, served, sent, forward, node_url, set_key, get_key, receive_set,
  receive_get,
}
use sd_practice_qr_code_gene.Cluster.Router.Settings.{Router}

-- Each node that answers is one whose cache stands for a list of entries.
pub record IsServing (nodes : Nodes) : Type 0 where
  pub agree : (base : Text) (n : Node) → Dict.get nodes base ≡ some n → (s : Recent) × Agrees n s

pub put-IsServing :
    (nodes : Nodes) (base : Text) (n : Node) (s : Recent)
    → IsServing nodes
    → Agrees n s
    → IsServing (Dict.put nodes base n)
put-IsServing nodes base n s v a = record {
  agree = λ other m e. elim (text_dec base other) [
    | yes p ↦
        let same : n ≡ m =
          some-injective n m
            (sym (Dict.get-put nodes base other n ∙ if_pos (text_dec base other) p _ _) ∙ e) in
        (s, subst (λ x. Agrees x s) same a)
    | no p ↦
        v.agree other m
          (sym (Dict.get-put nodes base other n ∙ if_neg (text_dec base other) p _ _) ∙ e)
  ];
}

-- A stored key is found at once with its new value.
find-set :
    (s : Recent) (key value : Text) (ttl : Option ℤ) (now : ℕ)
    → find key (Recent.set s key value ttl now).items
      ≡ some (record { key = key; value = value; expires_at = expiry ttl now })
unfolding find Recent.set push
find-set s key value ttl now = elim (Option-cases (find key s.items)) [
  | inl e ↦ rw (e, Recent.set) (ground arith)
  | inr (x, e) ↦ rw (e, Recent.set) (ground arith)
]

-- What a look-up finds of a value that was set at `now` with a ttl in seconds, where it tests the
-- expiry at `soon` and takes the time left at `later`, in microseconds: the whole seconds left, `some
-- none` for ever, or `none` if the value has expired. A ttl of 0 counts as none.
pub data Finds (now soon later : ℕ) : Option ℤ → Option (Option ℤ) → Type 0 where
  unlimited : Finds now soon later none (some none)
  no_ttl : Finds now soon later (some (pos 0)) (some none)
  limited :
      (n left : ℕ)
      → 0 < n
      → soon ≤ now + n * 1000000
      → later + left * 1000000 ≤ now + n * 1000000
      → now + n * 1000000 < later + left * 1000000 + 1000000
      → Finds now soon later (some (pos n)) (some (some (pos left)))
  passed : (n : ℕ) → 0 < n → now + n * 1000000 < soon → Finds now soon later (some (pos n)) none
  negative : (n : ℕ) → 0 < now → now ≤ soon → Finds now soon later (some (negsuc n)) none

-- The reply to a look-up that finds this.
pub read_reply : Text → Text → Option (Option ℤ) → Reply CacheGetResponse
read_reply key value none = json 404 (record { error = codes "expired"; key = key; node = none })
read_reply key value (some left) = ok (record { key = key; value = value; ttl_remaining = left })

get-set_reply :
    (s : Recent) (key value : Text) (now soon later : ℕ) (ttl : Option ℤ) (o : Option (Option ℤ))
    → Finds now soon later ttl o
    → reply_of key (Recent.get (Recent.set s key value ttl now) key soon later).1
      ≡ read_reply key value o
unfolding Recent.get use_entry read_reply is_expired expiry ttl_remaining after_seconds
    seconds_until
get-set_reply s key value now soon later _ _ unlimited =
    rw (find-set s key value none now, Recent.get) refl
get-set_reply s key value now soon later _ _ no_ttl =
    rw (find-set s key value (some (pos 0)) now, Recent.get) refl
get-set_reply s key value now soon later _ _ (limited (suc n) left positive valid below above) =
    rw (find-set s key value (some (pos (suc n))) now, Recent.get) (ground arith)
get-set_reply s key value now soon later _ _ (limited zero left positive valid below above) =
    absurd (omega arith)
get-set_reply s key value now soon later _ _ (passed (suc n) positive past) =
    rw (find-set s key value (some (pos (suc n))) now, Recent.get) (ground arith)
get-set_reply s key value now soon later _ _ (passed zero positive past) = absurd (omega arith)
get-set_reply s key value now soon later _ _ (negative n positive after) =
    rw (find-set s key value (some (negsuc n)) now, Recent.get) (ground arith)

module _ (hash : Text → ℕ) (path : Text → KeyPath) (r : Router) (key node_id base : Text)
    (at : path key ≡ reaches key) where
  pub set_key-answered :
      (nodes : Nodes) (n : Node) (s : Recent) (value : Text) (ttl : Option ℤ) (now : ℕ)
      → node_url hash r key ≡ some (node_id, base)
      → Dict.get nodes base ≡ some n
      → Agrees n s
      → overflows ttl ≡ false
      → (n' : Node) × (set_key hash path r nodes answered key
            (record { value = value; ttl = ttl })
            now
          ≡ some (Dict.put nodes base n', ok (record { key = key; node = n.node_id })))
        × Agrees n' (Recent.set s key value ttl now)
  unfolding set_key forward sent
  set_key-answered nodes n s value ttl now routed here v fits =
      let w = set-Serves n s v key value ttl now fits in
      (
        w.after,
        rw (routed, at, set_key)
            (rw (here, sent) (rw (w.returns) (unfold served receive_set in refl))),
        w.agrees,
      )

  pub get_key-answered :
      (nodes : Nodes) (n : Node) (s : Recent) (now later : ℕ)
      → node_url hash r key ≡ some (node_id, base)
      → Dict.get nodes base ≡ some n
      → Agrees n s
      → (n' : Node) × (get_key hash path r nodes answered key now later
          ≡ some (Dict.put nodes base n', reply_of key (Recent.get s key now later).1))
        × Agrees n' (Recent.get s key now later).0
  unfolding get_key forward sent
  get_key-answered nodes n s now later routed here v =
      let w = get-Serves n s v key now later in
      (
        w.after,
        rw (routed, at, get_key)
            (rw (here, sent) (rw (w.returns) (unfold served receive_get in refl))),
        w.agrees,
      )

  -- Where the URL takes the key to the node as it is, the router has a URL for it, and a node answers
  -- there, whose cache stands for a list of entries: a value that is set through the router, with a
  -- ttl that a float holds, is read back through it with the whole seconds that it has left, or with
  -- none for ever; if its ttl has passed at the look-up, or is negative, the answer is that it has
  -- expired.
  pub get_key-set_key :
      (nodes : Nodes) (n : Node) (s : Recent) (value : Text) (ttl : Option ℤ) (now soon later : ℕ)
      (o : Option (Option ℤ))
      → node_url hash r key ≡ some (node_id, base)
      → Dict.get nodes base ≡ some n
      → Agrees n s
      → overflows ttl ≡ false
      → Finds now soon later ttl o
      → (nodes' nodes'' : Nodes) × (set_key hash path r nodes answered key
            (record { value = value; ttl = ttl })
            now
          ≡ some (nodes', ok (record { key = key; node = n.node_id })))
        × (get_key hash path r nodes' answered key soon later
            ≡ some (nodes'', read_reply key value o))
  get_key-set_key nodes n s value ttl now soon later o routed here v fits finds =
      let (n', stores, v') = set_key-answered nodes n s value ttl now routed here v fits in
      let there = Dict.get-put nodes base base n' ∙ if_pos (text_dec base base) refl _ _ in
      let (n'', reads, _) =
        get_key-answered (Dict.put nodes base n') n' (Recent.set s key value ttl now) soon later
          routed there v' in
      (
        Dict.put nodes base n',
        Dict.put (Dict.put nodes base n') base n'',
        stores,
        reads
            ∙ ap (λ a. some (Dict.put (Dict.put nodes base n') base n'', a))
                (get-set_reply s key value now soon later ttl o finds),
      )
