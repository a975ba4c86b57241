-- ===== src/Notify/Routes/Queued/Enqueues.antt =====
-- What a fan-out saves and enqueues, with Redis.
use sd_practice_qr_code_gene.Base.{ℕ, false, Has, Once, ◌↔◌, List, ◌++◌, ◌≡◌, map, length, ◌-◌}
use sd_practice_qr_code_gene.Base.Dict.{Dict}
use sd_practice_qr_code_gene.Base.Text.{Text}
use sd_practice_qr_code_gene.Notify.{Notification, compute_key}
use sd_practice_qr_code_gene.Notify.Store.{NotificationStore}
use sd_practice_qr_code_gene.Notify.RedisStore
use sd_practice_qr_code_gene.Notify.RedisStore.Writes.{Writes}
use sd_practice_qr_code_gene.Notify.Queue
use sd_practice_qr_code_gene.Notify.Queue.{stream_of}
use sd_practice_qr_code_gene.Notify.Routes.{Reply, ok}
use sd_practice_qr_code_gene.Notify.Routes.Fanout
use sd_practice_qr_code_gene.Notify.Routes.Fanout.{FanoutRequest, FanoutResponse, distinct}
use sd_practice_qr_code_gene.Notify.Routes.Fanout.Recipients.{is_known, unknown, MadeFrom}
use sd_practice_qr_code_gene.Notify.Routes.Queued.{System, Shared}

module _ (S : System) (w : Shared S) (req : FanoutRequest) (ids : ℕ → Text) (now : ℕ) where
  -- What a fan-out to these notifications answers, saves and enqueues.
  pub record IsEnqueued (ns : List Notification) (p : Shared S × Reply FanoutResponse)
      : Type 0 where
    pub answer :
        p.1
        ≡ ok (record {
          user_count = length req.user_ids;
          notification_ids = map (λ n. n.notification_id) ns;
          skipped = length req.user_ids - length ns;
        })
    pub saved : p.0.store ≡ RedisStore.save_batch S.store S.formats S.ttl w.store ns
    pub stream :
        S.queue.stream p.0.queue (stream_of req.priority)
        ≡ S.queue.stream w.queue (stream_of req.priority) ++ map (λ n. n.notification_id) ns

-- What a fan-out makes, where the store knows some keys already: a notification with the next id for
-- each user of the request whose key is unknown, and for nobody else; no user comes twice, and
-- `distinct` gives the order.
pub record IsFanout (S : System) (req : FanoutRequest) (ids : ℕ → Text) (now : ℕ)
    (s : NotificationStore) (ns : List Notification) : Type 0 where
  pub made : MadeFrom S.config S.sha256 req ids now 0 ns
  pub once : Once (map (λ n. n.user_id) ns)
  pub wanted :
      (u : Text)
      → Has u (map (λ n. n.user_id) ns)
        ↔ (Has u req.user_ids × (is_known s (compute_key S.sha256 u req.topic req.message) ≡ false))
  pub in_order :
      map (λ n. n.user_id) ns
      ≡ unknown s (λ u. compute_key S.sha256 u req.topic req.message) (distinct req.user_ids)
