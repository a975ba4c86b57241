-- ===== src/Notify/RedisStore.antt =====
-- notification_system/app/store_redis.py, over the Redis commands that it uses. An `async` method is
-- the same as the other of its name. `none` where a notification is read is an exception.
pub mod Tests
pub mod Hashes
pub mod Reads
pub mod Commands
pub mod Agrees
pub mod Writes
pub mod Saved
pub mod Lists
use sd_practice_qr_code_gene.Base.{
  Has, Once, ◌⊎◌, ℕ, zero, suc, Bool, true, false, Option, none, some, List, [], ◌∷◌, ◌≡◌, ◌<◌, ite,
  map, ltb, if◌then◌else◌,
}
use sd_practice_qr_code_gene.Base.Text.{Text, codes, text_dec}
use sd_practice_qr_code_gene.Notify.{Notification}
use sd_practice_qr_code_gene.Notify.Store.{add_id}
use sd_practice_qr_code_gene.Notify.RedisStore.Hashes.{
  Hash, Formats, serialize, outcome, deserialize, merge,
}

-- The key layout
pub data Key : Type 0 where
  notification_key : Text → Key
  idempotency_key : Text → Key
  user_key : Text → Key

unfoldable pub key_dec : Discrete Key
unfolding text_dec
key_dec = hlevel (text_dec)

-- The commands at one instant; `hgetall` is `none` for the empty reply. An `expire` and a `SET … EX`
-- have a positive time.
pub record Redis : Type 1 where
  pub State : Type 0
  pub hgetall : State → Key → Option Hash
  pub hset : State → Key → Hash → State
  pub expire : State → Key → ℕ → State
  pub get : State → Key → Option Text
  pub set_ex : State → Key → Text → ℕ → State
  pub zadd : State → Key → Text → ℕ → State
  pub zrange : State → Key → List Text
  pub hgetall-hset :
      (s : State) (k j : Key) (m : Hash)
      → hgetall (hset s k m) j ≡ ite (key_dec k j) (some (merge m (hgetall s k))) (hgetall s j)
  pub hgetall-expire :
      (s : State) (k j : Key) (t : ℕ) → 0 < t → hgetall (expire s k t) j ≡ hgetall s j
  pub hgetall-set_ex :
      (s : State) (k nid v : Text) (t : ℕ)
      → hgetall (set_ex s (idempotency_key k) v t) (notification_key nid)
        ≡ hgetall s (notification_key nid)
  pub hgetall-zadd :
      (s : State) (u nid v : Text) (score : ℕ)
      → hgetall (zadd s (user_key u) v score) (notification_key nid)
        ≡ hgetall s (notification_key nid)
  pub get-hset :
      (s : State) (nid k : Text) (m : Hash)
      → get (hset s (notification_key nid) m) (idempotency_key k) ≡ get s (idempotency_key k)
  pub get-expire : (s : State) (k j : Key) (t : ℕ) → 0 < t → get (expire s k t) j ≡ get s j
  pub get-set_ex :
      (s : State) (k j : Key) (v : Text) (t : ℕ)
      → 0 < t
      → get (set_ex s k v t) j ≡ ite (key_dec k j) (some v) (get s j)
  pub get-zadd :
      (s : State) (u k v : Text) (score : ℕ)
      → get (zadd s (user_key u) v score) (idempotency_key k) ≡ get s (idempotency_key k)
  pub zadd_new : (s : State) (k : Key) (v : Text) (score : ℕ) → Has v (zrange (zadd s k v score) k)
  pub zadd_keeps :
      (s : State) (k j : Key) (v x : Text) (score : ℕ)
      → Has x (zrange s j)
      → Has x (zrange (zadd s k v score) j)
  pub zadd_only :
      (s : State) (k j : Key) (v x : Text) (score : ℕ)
      → Has x (zrange (zadd s k v score) j)
      → Has x (zrange s j) ⊎ ((k ≡ j) × (x ≡ v))
  pub zadd_once :
      (s : State) (k j : Key) (v : Text) (score : ℕ)
      → Once (zrange s j)
      → Once (zrange (zadd s k v score) j)
  pub zrange-hset :
      (s : State) (nid u : Text) (m : Hash)
      → zrange (hset s (notification_key nid) m) (user_key u) ≡ zrange s (user_key u)
  pub zrange-expire : (s : State) (k j : Key) (t : ℕ) → 0 < t → zrange (expire s k t) j ≡ zrange s j
  pub zrange-set_ex :
      (s : State) (k u v : Text) (t : ℕ)
      → zrange (set_ex s (idempotency_key k) v t) (user_key u) ≡ zrange s (user_key u)

-- 24 h
abbrev pub idempotency_ttl : ℕ
idempotency_ttl = 86400

-- `_deserialize(d) if d else None`
unfoldable pub from_reply : Formats → Option Hash → Option (Option Notification)
from_reply F none = some none
from_reply F (some d) = elim (deserialize F d) [ none ↦ none | some n ↦ some (some n) ]

-- One more entry of a list, where no look-up raises.
abbrev pub collect {ℓ} : {A : Type ℓ} → Option A → Option (List A) → Option (List A)
collect none rest = none
collect (some n) none = none
collect (some n) (some ns) = some (n ∷ ns)

module _ (R : Redis) (F : Formats) where
  unfoldable pub get : R.State → Text → Option (Option Notification)
  get r nid = from_reply F (R.hgetall r (notification_key nid))

  unfoldable pub get_by_key : R.State → Text → Option (Option Notification)
  get_by_key r key = elim (R.get r (idempotency_key key)) [
    | none ↦ some none
    | some nid ↦ get r nid
  ]

  -- `if config.NOTIFICATION_TTL_S`
  unfoldable pub expire_notification : ℕ → R.State → Text → R.State
  expire_notification zero r nid = r
  expire_notification (suc ttl) r nid = R.expire r (notification_key nid) (suc ttl)

  -- The pipeline of `save`, and of each notification in `asave_batch`; `ttl` is NOTIFICATION_TTL_S.
  unfoldable pub save : ℕ → R.State → Notification → R.State
  save ttl r n =
      let hashed = R.hset r (notification_key n.notification_id) (serialize F n) in
      let expiring = expire_notification ttl hashed n.notification_id in
      let keyed =
        R.set_ex expiring (idempotency_key n.idempotency_key) n.notification_id idempotency_ttl in
      R.zadd keyed (user_key n.user_id) n.notification_id n.created_at

  unfoldable pub save_status : R.State → Notification → R.State
  save_status r n = R.hset r (notification_key n.notification_id) (outcome F n)

  unfoldable pub save_batch : ℕ → R.State → List Notification → R.State
  save_batch ttl r [] = r
  save_batch ttl r (n ∷ ns) = save_batch ttl (save ttl r n) ns

  -- `abatch_get`
  unfoldable pub batch_get : R.State → List Text → Option (List (Option Notification))
  batch_get r [] = some []
  batch_get r (nid ∷ nids) = collect (get r nid) (batch_get r nids)

  -- `[_deserialize(d) for d in … if d]`
  unfoldable pub present : List (Option Notification) → List Notification
  present [] = []
  present (none ∷ ns) = present ns
  present (some n ∷ ns) = n ∷ present ns

  unfoldable pub list_for_user : R.State → Text → Option (List Notification)
  list_for_user r user_id = elim (batch_get r (R.zrange r (user_key user_id))) [
    | none ↦ none
    | some ns ↦ some (present ns)
  ]

  -- A set of keys, as a list without repetition.
  unfoldable pub get_existing_keys : R.State → List Text → List Text
  get_existing_keys r [] = []
  get_existing_keys r (k ∷ ks) =
      let rest = get_existing_keys r ks in
      elim (R.get r (idempotency_key k)) [ none ↦ rest | some nid ↦ add_id rest k ]
