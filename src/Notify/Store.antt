-- ===== src/Notify/Store.antt =====
-- notification_system/app/store.py: the store in memory. Its locks make each method atomic; a row
-- is the value of the object that the program shares.
pub mod Laws
pub mod Users
use sd_practice_qr_code_gene.Base.{Bool, true, false, Option, none, some, List, [], ◌∷◌, ite}
use sd_practice_qr_code_gene.Base.Dict
use sd_practice_qr_code_gene.Base.Dict.{Dict}
use sd_practice_qr_code_gene.Base.Text.{Text, text_dec}
use sd_practice_qr_code_gene.Notify.{Notification}

pub record NotificationStore : Type 0 where
  pub by_id : Dict Notification
  pub by_key : Dict Text
  pub by_user : Dict (List Text)

abbrev pub init : NotificationStore
init = record { by_id = Dict.empty; by_key = Dict.empty; by_user = Dict.empty }

unfoldable pub get : NotificationStore → Text → Option Notification
get s notification_id = Dict.get s.by_id notification_id

unfoldable pub get_by_key : NotificationStore → Text → Option Notification
get_by_key s idempotency_key = elim (Dict.get s.by_key idempotency_key) [
  | none ↦ none
  | some nid ↦ Dict.get s.by_id nid
]

-- `nid in ids`, `ids.add(nid)` of a set
unfoldable pub contains : List Text → Text → Bool
contains [] nid = false
contains (i ∷ ids) nid = ite (text_dec i nid) true (contains ids nid)

unfoldable pub add_id : List Text → Text → List Text
add_id ids nid = elim (contains ids nid) [ true ↦ ids | false ↦ nid ∷ ids ]

-- `.get(user_id, set())`
unfoldable pub ids_of : NotificationStore → Text → List Text
ids_of s user_id = elim (Dict.get s.by_user user_id) [ none ↦ [] | some ids ↦ ids ]

unfoldable pub save : NotificationStore → Notification → NotificationStore
save s n = record {
  by_id = Dict.put s.by_id n.notification_id n;
  by_key = Dict.put s.by_key n.idempotency_key n.notification_id;
  by_user = Dict.put s.by_user n.user_id (add_id (ids_of s n.user_id) n.notification_id);
}

-- `[self._by_id[nid] for nid in ids if nid in self._by_id]`
unfoldable pub present : NotificationStore → List Text → List Notification
present s [] = []
present s (nid ∷ ids) =
    let rest = present s ids in elim (get s nid) [ none ↦ rest | some n ↦ n ∷ rest ]

unfoldable pub list_for_user : NotificationStore → Text → List Notification
list_for_user s user_id = present s (ids_of s user_id)

unfoldable pub save_status : NotificationStore → Notification → NotificationStore
save_status = save

-- `{k for k in idempotency_keys if self._by_key.get(k) is not None}`
unfoldable pub get_existing_keys : NotificationStore → List Text → List Text
get_existing_keys s [] = []
get_existing_keys s (k ∷ ks) =
    let rest = get_existing_keys s ks in
    elim (Dict.get s.by_key k) [ none ↦ rest | some nid ↦ add_id rest k ]

unfoldable pub save_batch : NotificationStore → List Notification → NotificationStore
save_batch s [] = s
save_batch s (n ∷ ns) = save_batch (save s n) ns
