-- ===== src/Notify/Worker/Group/Kept.antt =====
-- What the commands on the streams leave of the messages.

use sd_practice_qr_code_gene.Base.{
  ℕ, zero, suc, Option, none, some, List, [], ◌∷◌, ◌≡◌, inl, inr, All,
}
use sd_practice_qr_code_gene.Base.Text.{Text}
use sd_practice_qr_code_gene.Notify.Queue
use sd_practice_qr_code_gene.Notify.Queue.{
  Stream, critical_stream, delivery_stream, stream_of, enqueue, enqueue_batch, add_to, enqueue_dlq,
  pop_all, requeue, dlq_retry_batch,
}
use sd_practice_qr_code_gene.Notify.Worker.{Message}
use sd_practice_qr_code_gene.Notify.Worker.Group.{Group, Keeps, read_normal, read_next}

module _ (Q : Queue.Redis) (G : Group Q) where
  unfoldable pub Kept : Q.State → Q.State → Type 0
  Kept = Keeps G.entry G.IsWaiting G.IsPending

  Kept-refl : (q : Q.State) → Kept q q
  unfolding Kept
  Kept-refl q = record { entries = λ k i body e. e; waiting = λ k i h. inl h; pending = λ k i h. h }

  pub Kept-trans : (q q' q'' : Q.State) → Kept q q' → Kept q' q'' → Kept q q''
  unfolding Kept
  Kept-trans q q' q'' v w = record {
    entries = λ k i body e. w.entries k i body (v.entries k i body e);
    waiting = λ k i h. elim (v.waiting k i h) [
      | inl still ↦ w.waiting k i still
      | inr given ↦ inr (w.pending k i given)
    ];
    pending = λ k i h. w.pending k i (v.pending k i h);
  }

  pub add_to-Kept : (q : Q.State) (k : Stream) (nids : List Text) → Kept q (add_to Q q k nids)
  unfolding add_to Kept
  add_to-Kept q k [] = Kept-refl q
  add_to-Kept q k (nid ∷ nids) =
      Kept-trans q (Q.xadd q k nid) _ (G.xadd-Keeps q k nid) (add_to-Kept (Q.xadd q k nid) k nids)

  pop_all-Kept : (q : Q.State) (count : ℕ) → Kept q (pop_all Q q count).0
  unfolding pop_all Kept
  pop_all-Kept q zero = Kept-refl q
  pop_all-Kept q (suc count) =
      Kept-trans q (Q.lpop q).0 _ (G.lpop-Keeps q) (pop_all-Kept (Q.lpop q).0 count)

  requeue-Kept : (q : Q.State) (results : List (Option Text)) → Kept q (requeue Q q results).0
  unfolding requeue Kept
  requeue-Kept q [] = Kept-refl q
  requeue-Kept q (none ∷ results) = requeue-Kept q results
  requeue-Kept q (some [] ∷ results) = requeue-Kept q results
  requeue-Kept q (some (c ∷ s) ∷ results) =
      Kept-trans q (Q.xadd q delivery_stream (c ∷ s)) _ (G.xadd-Keeps q delivery_stream (c ∷ s))
        (requeue-Kept (Q.xadd q delivery_stream (c ∷ s)) results)

  pub dlq_retry_batch-Kept : (q : Q.State) (count : ℕ) → Kept q (dlq_retry_batch Q q count).0
  unfolding dlq_retry_batch Kept
  dlq_retry_batch-Kept q count =
      Kept-trans q (pop_all Q q count).0 _ (pop_all-Kept q count)
        (requeue-Kept (pop_all Q q count).0 (pop_all Q q count).1)

  -- The messages of a batch are those that its stream has under their ids.
  unfoldable pub FromStream : Q.State → Stream → List (Message G.MessageId) → Type 0
  FromStream q k msgs = All (λ m. G.entry q k m.0 ≡ some m.1) msgs

  read_normal-Kept :
      (q : Q.State) (msgs : List (Message G.MessageId)) (count : ℕ)
      → FromStream q critical_stream msgs
      → Kept q (read_normal Q G q msgs count).0
        × FromStream
            (read_normal Q G q msgs count).0
            (read_normal Q G q msgs count).1
            (read_normal Q G q msgs count).2
  unfolding read_normal Kept FromStream
  read_normal-Kept q [] count h =
      (G.xreadgroup-Keeps q delivery_stream count, G.read_entries q delivery_stream count)
  read_normal-Kept q (m ∷ msgs) count h = (Kept-refl q, h)

  pub read_next-Kept :
      (q : Q.State) (count : ℕ)
      → Kept q (read_next Q G q count).0
        × FromStream (read_next Q G q count).0 (read_next Q G q count).1 (read_next Q G q count).2
  unfolding read_next Kept FromStream
  read_next-Kept q count =
      let (q', msgs) = G.xreadgroup q critical_stream count in
      let (kept, own) = read_normal-Kept q' msgs count (G.read_entries q critical_stream count) in
      (Kept-trans q q' _ (G.xreadgroup-Keeps q critical_stream count) kept, own)
