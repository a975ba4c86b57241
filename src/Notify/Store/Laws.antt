-- ===== src/Notify/Store/Laws.antt =====
-- What is read after a write of the store.
use sd_practice_qr_code_gene.Base.{some, ite, ◌≡◌, arith}
use sd_practice_qr_code_gene.Base.Dict
use sd_practice_qr_code_gene.Base.Text.{Text, text_dec}
use sd_practice_qr_code_gene.Notify.{Notification}
use sd_practice_qr_code_gene.Notify.Store.{NotificationStore, get, get_by_key, save}

pub get-save :
    (s : NotificationStore) (n : Notification) (nid : Text)
    → get (save s n) nid ≡ ite (text_dec n.notification_id nid) (some n) (get s nid)
unfolding get save
get-save s n nid = Dict.get-put s.by_id n.notification_id nid n

-- A saved notification is found under its idempotency key.
pub get_by_key-save :
    (s : NotificationStore) (n : Notification) → get_by_key (save s n) n.idempotency_key ≡ some n
unfolding get_by_key save
get_by_key-save s n = ground (
  arith,
  Dict.get-put s.by_key n.idempotency_key n.idempotency_key n.notification_id,
  Dict.get-put s.by_id n.notification_id n.notification_id n,
)

pub by_key-save :
    (s : NotificationStore) (n : Notification) (k : Text)
    → Dict.get (save s n).by_key k
      ≡ ite (text_dec n.idempotency_key k) (some n.notification_id) (Dict.get s.by_key k)
unfolding save
by_key-save s n k = Dict.get-put s.by_key n.idempotency_key k n.notification_id
