-- ===== src/Notify/Routes/Fanout.antt =====
-- `fanout_notification` of notification_system/app/routes.py, without Redis: the batch is saved,
-- and then each notification is delivered in the request. The new ids, the clock and what the
-- channel does for each notification are arguments.
pub mod Recipients
use sd_practice_qr_code_gene.Base.{
  ℕ, zero, suc, ◌+◌, ◌-◌, Bool, true, false, Option, none, some, List, [], ◌∷◌, map, ite, length,
  ltb, ◌==◌, if◌then◌else◌, ◌||◌,
}
use sd_practice_qr_code_gene.Base.Text.{Text, text_dec}
use sd_practice_qr_code_gene.Notify.{Notification, SendRequest, compute_key}
use sd_practice_qr_code_gene.Notify.Store
use sd_practice_qr_code_gene.Notify.Registry.{Config, get_channel}
use sd_practice_qr_code_gene.Notify.Delivery.{Attempt}
use sd_practice_qr_code_gene.Notify.Routes.{World, Reply, ok, raise, new_notification, deliver_now}

pub record FanoutRequest : Type 0 where
  pub user_ids : List Text
  pub channel : Text
  pub message : Text
  pub topic : Text
  pub priority : Text

pub record FanoutResponse : Type 0 where
  pub user_count : ℕ
  pub notification_ids : List Text
  pub skipped : ℕ

unfoldable pub without : Text → List Text → List Text
without u [] = []
without u (v ∷ vs) = let rest = without u vs in ite (text_dec v u) rest (v ∷ rest)

-- The keys of the `dict` over the user ids, in the order in which they first come.
unfoldable pub distinct : List Text → List Text
distinct [] = []
distinct (u ∷ us) = let rest = distinct us in u ∷ without u rest

module _ (cfg : Config) (sha256 : Text → Text) (req : FanoutRequest) where
  unfoldable pub key_of_user : Text → Text
  key_of_user user_id = compute_key sha256 user_id req.topic req.message

  -- The request to one of the users.
  unfoldable pub request_to : Text → SendRequest
  request_to user_id = record {
    user_id = user_id;
    channel = req.channel;
    message = req.message;
    topic = req.topic;
    priority = req.priority;
  }

  -- The loop over `user_keys`; `ids` gives the id of the next notification.
  unfoldable pub fresh_for : List Text → (ℕ → Text) → ℕ → ℕ → List Text → List Notification
  fresh_for existing_keys ids now i [] = []
  fresh_for existing_keys ids now i (user_id ∷ users) =
      let skip = fresh_for existing_keys ids now i users in
      let rest = fresh_for existing_keys ids now (i + 1) users in
      if Store.contains existing_keys (key_of_user user_id)
      then skip
      else new_notification cfg sha256 (request_to user_id) (ids i) now ∷ rest

  -- `notifications`, from the store before the call
  unfoldable pub notifications_for : World → (ℕ → Text) → ℕ → List Notification
  notifications_for w ids now =
      let users = distinct req.user_ids in
      fresh_for (Store.get_existing_keys w.store (map key_of_user users)) ids now 0 users

  unfoldable pub deliver_all : World → (ℕ → ℕ → Attempt) → ℕ → List Notification → World
  deliver_all w attempts i [] = w
  deliver_all w attempts i (n ∷ ns) =
      deliver_all (deliver_now cfg sha256 w n (attempts i)).0 attempts (i + 1) ns

  unfoldable pub fanout_body :
      World → List Notification → (ℕ → ℕ → Attempt) → World × Reply FanoutResponse
  fanout_body w ns attempts = (
    deliver_all (record w { store = Store.save_batch w.store ns }) attempts 0 ns,
    ok (record {
      user_count = length req.user_ids;
      notification_ids = map (λ n. n.notification_id) ns;
      skipped = length req.user_ids - length ns;
    }),
  )

  unfoldable pub fanout_notification :
      World → (ℕ → Text) → ℕ → (ℕ → ℕ → Attempt) → World × Reply FanoutResponse
  fanout_notification w ids now attempts =
      if length req.user_ids == 0 || ltb 10000 (length req.user_ids)
      then (w, raise 422)
      else elim (get_channel cfg w.breakers req.channel) [
        | none ↦ (w, raise 422)
        | some breakers ↦
            fanout_body (record w { breakers = breakers }) (notifications_for w ids now) attempts
      ]
