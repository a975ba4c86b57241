-- ===== src/Notify/Queue.antt =====
-- notification_system/app/queue.py and admin.py: the producer of the streams and the dead-letter
-- queue, over the Redis commands that they use. An `async` function is the same as the other of its
-- name.
pub mod Tests
pub mod Retry
use sd_practice_qr_code_gene.Base.{
  ℕ, zero, suc, Bool, true, false, Option, none, some, List, [], ◌∷◌, ◌++◌, ◌≡◌, ite, length, take,
}
use sd_practice_qr_code_gene.Base.Text.{Text, codes, text_dec}

-- STREAM_KEY_CRITICAL and STREAM_KEY
pub data Stream : Type 0 where
  critical_stream delivery_stream : Stream

-- `stream s k` are the ids in the messages of a stream, the oldest first, and `dead s` is the list
-- under DLQ_KEY.
pub record Redis : Type 1 where
  pub State : Type 0
  pub stream : State → Stream → List Text
  pub dead : State → List Text
  pub xadd : State → Stream → Text → State
  pub rpush : State → Text → State
  pub lpop : State → State × Option Text
  pub stream-xadd :
      (s : State) (k : Stream) (nid : Text) → stream (xadd s k nid) k ≡ stream s k ++ nid ∷ []
  pub dead-xadd : (s : State) (k : Stream) (nid : Text) → dead (xadd s k nid) ≡ dead s
  pub dead-rpush : (s : State) (nid : Text) → dead (rpush s nid) ≡ dead s ++ nid ∷ []
  pub stream-lpop : (s : State) (k : Stream) → stream (lpop s).0 k ≡ stream s k
  pub lpop_empty : (s : State) → dead s ≡ [] → (dead (lpop s).0 ≡ []) × ((lpop s).1 ≡ none)
  pub lpop_first :
      (s : State) (nid : Text) (nids : List Text)
      → dead s ≡ nid ∷ nids
      → (dead (lpop s).0 ≡ nids) × ((lpop s).1 ≡ some nid)

-- `STREAM_KEY_CRITICAL if priority == "critical" else STREAM_KEY`
unfoldable pub stream_of : Text → Stream
stream_of priority = ite (text_dec priority (codes "critical")) critical_stream delivery_stream

module _ (R : Redis) where
  unfoldable pub enqueue : R.State → Text → Text → R.State
  enqueue r nid priority = R.xadd r (stream_of priority) nid

  unfoldable pub add_to : R.State → Stream → List Text → R.State
  add_to r k [] = r
  add_to r k (nid ∷ nids) = add_to (R.xadd r k nid) k nids

  unfoldable pub enqueue_batch : R.State → List Text → Text → R.State
  enqueue_batch r nids priority = add_to r (stream_of priority) nids

  unfoldable pub enqueue_dlq : R.State → Text → R.State
  enqueue_dlq r nid = R.rpush r nid

  unfoldable pub dlq_length : R.State → ℕ
  dlq_length r = length (R.dead r)

  -- `pipe.lpop(DLQ_KEY)`, `count` times
  unfoldable pub pop_all : R.State → ℕ → R.State × List (Option Text)
  pop_all r zero = (r, [])
  pop_all r (suc count) =
      let (r', nid) = R.lpop r in let (r'', nids) = pop_all r' count in (r'', nid ∷ nids)

  -- `if nid`, in the loop over the results
  unfoldable pub requeue : R.State → List (Option Text) → R.State × List Text
  requeue r [] = (r, [])
  requeue r (none ∷ results) = requeue r results
  requeue r (some [] ∷ results) = requeue r results
  requeue r (some (c ∷ s) ∷ results) =
      let (r', ids) = requeue (R.xadd r delivery_stream (c ∷ s)) results in (r', (c ∷ s) ∷ ids)

  unfoldable pub dlq_retry_batch : R.State → ℕ → R.State × List Text
  dlq_retry_batch r count = let (r', results) = pop_all r count in requeue r' results

  -- admin.py; the client is `none` where REDIS_URL is not set, and the answer then is a 503.
  unfoldable pub dlq_status : Option R.State → Option (ℕ × List Text)
  dlq_status none = none
  dlq_status (some r) = some (dlq_length r, take 10 (R.dead r))

  unfoldable pub dlq_retry : Option R.State → ℕ → Option (R.State × ℕ × List Text)
  dlq_retry none count = none
  dlq_retry (some r) count =
      let (r', requeued) = dlq_retry_batch r count in some (r', length requeued, requeued)
