-- ===== src/Notify/Worker/Group.antt =====
-- The delivery streams with the consumer group, as notification_system/app/queue.py and worker.py
-- use them, and the steps of the programs that share them: the API, the workers and the dead-letter
-- queue. No message is deleted from a stream, and the group is made from its start (`id="0"`).
mod Tests
pub mod Log
pub mod Given
pub mod Kept
pub mod Acks
pub mod NeverLost
pub mod Promised
use sd_practice_qr_code_gene.Base.{
  ℕ, zero, suc, Bool, true, false, Option, none, some, List, [], ◌∷◌, ◌≡◌, ◌⊎◌, All, Has,
}
use sd_practice_qr_code_gene.Base.Text.{Text}
use sd_practice_qr_code_gene.Notify.Queue
use sd_practice_qr_code_gene.Notify.Queue.{
  Stream, critical_stream, delivery_stream, enqueue, enqueue_batch, enqueue_dlq, dlq_retry_batch,
}
use sd_practice_qr_code_gene.Notify.RedisStore
use sd_practice_qr_code_gene.Notify.RedisStore.Hashes.{Formats}
use sd_practice_qr_code_gene.Notify.Worker.{Message, process_batch}

-- What a command other than XACK leaves of the messages.
pub record Keeps {S I : Type 0} (entry : S → Stream → I → Option (Option Text))
    (IsWaiting IsPending : S → Stream → I → Type 0) (s s' : S) : Type 0 where
  pub entries :
      (k : Stream) (i : I) (body : Option Text) → entry s k i ≡ some body → entry s' k i ≡ some body
  pub waiting : (k : Stream) (i : I) → IsWaiting s k i → IsWaiting s' k i ⊎ IsPending s' k i
  pub pending : (k : Stream) (i : I) → IsPending s k i → IsPending s' k i

-- A message is waiting until the group is given it, and pending from then until it is acknowledged.
-- The cursor that XAUTOCLAIM returns is left out; `none` is its start "0-0".
pub record Group (Q : Queue.Redis) : Type 1 where
  pub MessageId : Type 0
  pub entry : Q.State → Stream → MessageId → Option (Option Text)
  pub IsWaiting : Q.State → Stream → MessageId → Type 0
  pub IsPending : Q.State → Stream → MessageId → Type 0
  pub xreadgroup : Q.State → Stream → ℕ → Q.State × List (Message MessageId)
  pub xautoclaim : Q.State → Stream → Option MessageId → ℕ → Q.State × List (Message MessageId)
  pub xack : Q.State → Stream → MessageId → Q.State
  pub xadd_new :
      (s : Q.State) (k : Stream) (nid : Text)
      → (i : MessageId) × IsWaiting (Q.xadd s k nid) k i
        × (entry (Q.xadd s k nid) k i ≡ some (some nid))
  pub xadd-Keeps :
      (s : Q.State) (k : Stream) (nid : Text) → Keeps entry IsWaiting IsPending s (Q.xadd s k nid)
  pub rpush-Keeps : (s : Q.State) (nid : Text) → Keeps entry IsWaiting IsPending s (Q.rpush s nid)
  pub lpop-Keeps : (s : Q.State) → Keeps entry IsWaiting IsPending s (Q.lpop s).0
  pub xreadgroup-Keeps :
      (s : Q.State) (k : Stream) (count : ℕ)
      → Keeps entry IsWaiting IsPending s (xreadgroup s k count).0
  pub xautoclaim-Keeps :
      (s : Q.State) (k : Stream) (start : Option MessageId) (count : ℕ)
      → Keeps entry IsWaiting IsPending s (xautoclaim s k start count).0
  pub read_entries :
      (s : Q.State) (k : Stream) (count : ℕ)
      → All (λ m. entry (xreadgroup s k count).0 k m.0 ≡ some m.1) (xreadgroup s k count).1
  pub claimed_entries :
      (s : Q.State) (k : Stream) (start : Option MessageId) (count : ℕ)
      → All
          (λ m. entry (xautoclaim s k start count).0 k m.0 ≡ some m.1)
          (xautoclaim s k start count).1
  pub entry-xack :
      (s : Q.State) (j k : Stream) (l i : MessageId) → entry (xack s j l) k i ≡ entry s k i
  pub waiting-xack :
      (s : Q.State) (j k : Stream) (l i : MessageId) → IsWaiting s k i → IsWaiting (xack s j l) k i
  pub pending-xack :
      (s : Q.State) (j k : Stream) (l i : MessageId)
      → IsPending s k i
      → IsPending (xack s j l) k i ⊎ ((j ≡ k) × (l ≡ i))

module _ (Q : Queue.Redis) (G : Group Q) where
  -- `xreadgroup` on the critical stream, and `if critical_msgs`; `count` is BATCH_SIZE.
  unfoldable pub read_normal :
      Q.State → List (Message G.MessageId) → ℕ → Q.State × Stream × List (Message G.MessageId)
  read_normal q [] count =
      let (q', normal_msgs) = G.xreadgroup q delivery_stream count in
      (q', delivery_stream, normal_msgs)
  read_normal q (m ∷ msgs) count = (q, critical_stream, m ∷ msgs)

  unfoldable pub read_next : Q.State → ℕ → Q.State × Stream × List (Message G.MessageId)
  read_next q count =
      let (q', critical_msgs) = G.xreadgroup q critical_stream count in
      read_normal q' critical_msgs count

  -- XACK, which takes the ids of a batch in one command.
  unfoldable pub acknowledge : Q.State → List (Stream × G.MessageId) → Q.State
  acknowledge q [] = q
  acknowledge q ((k, i) ∷ ids) = acknowledge (G.xack q k i) ids

module _ (Q : Queue.Redis) (G : Group Q) (R : RedisStore.Redis) (F : Formats) where
  -- A batch that a worker has been given, and one that it has run, with the store at that time.
  pub record Batch : Type 0 where
    pub stream : Stream
    pub messages : List (Message G.MessageId)

  pub record Run : Type 0 where
    pub store : R.State
    pub batch : Batch

  pub record Shared : Type 0 where
    pub queue : Q.State
    pub given : List Batch
    pub done : List Run

  -- The acknowledgements of `_process_batch`, none where it raises.
  unfoldable pub finish : R.State → Q.State → Batch → Q.State
  finish store q b = acknowledge Q G q (process_batch R F store b.stream b.messages).acked

  -- One step of a program. A worker that ends, at whatever time, takes no further step with the
  -- batches that it was given.
  pub data Step : Shared → Shared → Type 0 where
    enqueues :
        (w : Shared) (nid priority : Text)
        → Step w (record w { queue = enqueue Q w.queue nid priority })
    enqueues_batch :
        (w : Shared) (nids : List Text) (priority : Text)
        → Step w (record w { queue = enqueue_batch Q w.queue nids priority })
    gives_up : (w : Shared) (nid : Text) → Step w (record w { queue = enqueue_dlq Q w.queue nid })
    retries :
        (w : Shared) (count : ℕ) → Step w (record w { queue = (dlq_retry_batch Q w.queue count).0 })
    reads :
        (w : Shared) (count : ℕ)
        → Step w (record w {
          queue = (read_next Q G w.queue count).0;
          given =
              record {
                stream = (read_next Q G w.queue count).1;
                messages = (read_next Q G w.queue count).2;
              }
              ∷ w.given;
        })
    claims :
        (w : Shared) (stream : Stream) (start : Option G.MessageId) (count : ℕ)
        → Step w (record w {
          queue = (G.xautoclaim w.queue stream start count).0;
          given =
              record { stream = stream; messages = (G.xautoclaim w.queue stream start count).1 }
              ∷ w.given;
        })
    finishes :
        (w : Shared) (store : R.State) (b : Batch)
        → Has b w.given
        → Step w (record w {
          queue = finish store w.queue b;
          done = record { store = store; batch = b } ∷ w.done;
        })

  pub data Reach (w : Shared) : Shared → Type 0 where
    here : Reach w w
    next : {u v : Shared} → Reach w u → Step u v → Reach w v

  -- Before any worker runs.
  unfoldable pub start : Q.State → Shared
  start q = record { queue = q; given = []; done = [] }
