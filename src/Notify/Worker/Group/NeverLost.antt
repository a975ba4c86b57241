-- ===== src/Notify/Worker/Group/NeverLost.antt =====
-- What becomes of a message, over the steps of all programs.
use sd_practice_qr_code_gene.Base.{
  Option, some, List, [], ◌∷◌, ◌≡◌, ◌⊎◌, inl, inr, refl, sym, ◌∙◌, All, Has,
}
use mathlib.Core.Path.{subst}
use sd_practice_qr_code_gene.Base.Text.{Text}
use sd_practice_qr_code_gene.Notify.Queue
use sd_practice_qr_code_gene.Notify.Queue.{Stream, stream_of, enqueue, enqueue_batch, enqueue_dlq}
use sd_practice_qr_code_gene.Notify.RedisStore
use sd_practice_qr_code_gene.Notify.RedisStore.Hashes.{Formats}
use sd_practice_qr_code_gene.Notify.Worker.{Message}
use sd_practice_qr_code_gene.Notify.Worker.Group.{
  Group, Batch, Run, Shared, finish, Step, Reach, start, enqueues, enqueues_batch, gives_up,
  retries, reads, claims, finishes, here, next,
}
use sd_practice_qr_code_gene.Notify.Worker.Group.Kept.{
  Kept, add_to-Kept, dlq_retry_batch-Kept, FromStream, read_next-Kept,
}
use sd_practice_qr_code_gene.Notify.Worker.Group.Acks.{Handles, finish-Handles, finish-other}

module _ (Q : Queue.Redis) (G : Group Q) (R : RedisStore.Redis) (F : Formats) where
  -- A message is on its stream and waiting or pending, or one of the runs has handled it.
  pub record IsKept (k : Stream) (i : G.MessageId) (body : Option Text) (w : Shared Q G R F)
      : Type 0 where
    pub on_stream : G.entry w.queue k i ≡ some body
    pub place :
        (G.IsWaiting w.queue k i ⊎ G.IsPending w.queue k i)
        ⊎ ((run : Run Q G R F) × Has run w.done × Handles Q G R F run k i body)

  -- Each batch has the messages of its stream.
  IsRight : Shared Q G R F → Type 0
  IsRight w = All (λ b. FromStream Q G w.queue b.stream b.messages) w.given

  -- A step of the queue alone, and perhaps one more batch.
  FromStream-Keeps :
      (q q' : Q.State) (k : Stream) (msgs : List (Message G.MessageId))
      → ((i : G.MessageId) (body : Option Text)
          → G.entry q k i ≡ some body
          → G.entry q' k i ≡ some body)
      → FromStream Q G q k msgs
      → FromStream Q G q' k msgs
  unfolding FromStream
  FromStream-Keeps q q' k [] v h = tt
  FromStream-Keeps q q' k (m ∷ msgs) v (own, h) = (v m.0 m.1 own, FromStream-Keeps q q' k msgs v h)

  given-Keeps :
      (q q' : Q.State) (given : List (Batch Q G R F))
      → ((k : Stream) (i : G.MessageId) (body : Option Text)
          → G.entry q k i ≡ some body
          → G.entry q' k i ≡ some body)
      → All (λ b. FromStream Q G q b.stream b.messages) given
      → All (λ b. FromStream Q G q' b.stream b.messages) given
  given-Keeps q q' [] v h = tt
  given-Keeps q q' (b ∷ given) v (own, h) =
      (FromStream-Keeps q q' b.stream b.messages (v b.stream) own, given-Keeps q q' given v h)

  Kept-IsKept :
      (w : Shared Q G R F) (q : Q.State) (given : List (Batch Q G R F)) (k : Stream)
      (i : G.MessageId) (body : Option Text)
      → Kept Q G w.queue q
      → IsKept k i body w
      → IsKept k i body (record w { queue = q; given = given })
  unfolding Kept
  Kept-IsKept w q given k i body v h = record {
    on_stream = v.entries k i body h.on_stream;
    place = elim h.place [
      | inl (inl waiting) ↦ inl (v.waiting k i waiting)
      | inl (inr pending) ↦ inl (inr (v.pending k i pending))
      | inr handled ↦ inr handled
    ];
  }

  finish-IsKept :
      (w : Shared Q G R F) (store : R.State) (b : Batch Q G R F) (k : Stream) (i : G.MessageId)
      (body : Option Text)
      → FromStream Q G w.queue b.stream b.messages
      → IsKept k i body w
      → IsKept k i body (record w {
        queue = finish Q G R F store w.queue b;
        done = record { store = store; batch = b } ∷ w.done;
      })
  finish-IsKept w store b k i body own h =
      let (entries, waiting) = finish-other Q G R F store w.queue b k i in
      record {
        on_stream = entries ∙ h.on_stream;
        place = elim h.place [
          | inl (inl before) ↦ inl (inl (waiting before))
          | inl (inr pending) ↦
              elim (finish-Handles Q G R F store w.queue b k i body h.on_stream own pending) [
                | inl still ↦ inl (inr still)
                | inr handled ↦ inr (record { store = store; batch = b }, inl refl, handled)
              ]
          | inr (run, listed, handled) ↦ inr (run, inr listed, handled)
        ];
      }

  given-Has :
      (q : Q.State) (b : Batch Q G R F) (given : List (Batch Q G R F))
      → Has b given
      → All (λ x. FromStream Q G q x.stream x.messages) given
      → FromStream Q G q b.stream b.messages
  given-Has q b [] h a = elim h [ ]
  given-Has q b (x ∷ given) (inl e) (own, a) =
      subst (λ y. FromStream Q G q y.stream y.messages) (sym e) own
  given-Has q b (x ∷ given) (inr h) (own, a) = given-Has q b given h a

  Kept-IsRight :
      (w : Shared Q G R F) (q : Q.State)
      → Kept Q G w.queue q
      → IsRight w
      → IsRight (record w { queue = q })
  unfolding Kept IsRight
  Kept-IsRight w q v h = given-Keeps w.queue q w.given v.entries h

  -- A step that gives a worker one more batch.
  given_more :
      (w : Shared Q G R F) (q : Q.State) (stream : Stream) (msgs : List (Message G.MessageId))
      → Kept Q G w.queue q
      → FromStream Q G q stream msgs
      → IsRight w
      → IsRight
          (record w { queue = q; given = record { stream = stream; messages = msgs } ∷ w.given })
  unfolding Kept IsRight
  given_more w q stream msgs v own h = (own, given-Keeps w.queue q w.given v.entries h)

  -- One step keeps both; the message is any.
  Step-keeps :
      (u v : Shared Q G R F)
      → Step Q G R F u v
      → IsRight u
      → IsRight v
        × ((k : Stream) (i : G.MessageId) (body : Option Text)
            → IsKept k i body u
            → IsKept k i body v)
  unfolding enqueue enqueue_batch enqueue_dlq Kept
  Step-keeps _ _ (enqueues w nid priority) h =
      let kept = G.xadd-Keeps w.queue (stream_of priority) nid in
      (Kept-IsRight w _ kept h, λ k i body x. Kept-IsKept w _ w.given k i body kept x)
  Step-keeps _ _ (enqueues_batch w nids priority) h =
      let kept = add_to-Kept Q G w.queue (stream_of priority) nids in
      (Kept-IsRight w _ kept h, λ k i body x. Kept-IsKept w _ w.given k i body kept x)
  Step-keeps _ _ (gives_up w nid) h =
      let kept = G.rpush-Keeps w.queue nid in
      (Kept-IsRight w _ kept h, λ k i body x. Kept-IsKept w _ w.given k i body kept x)
  Step-keeps _ _ (retries w count) h =
      let kept = dlq_retry_batch-Kept Q G w.queue count in
      (Kept-IsRight w _ kept h, λ k i body x. Kept-IsKept w _ w.given k i body kept x)
  Step-keeps _ _ (reads w count) h =
      let (kept, own) = read_next-Kept Q G w.queue count in
      (given_more w _ _ _ kept own h, λ k i body x. Kept-IsKept w _ _ k i body kept x)
  Step-keeps _ _ (claims w stream cursor count) h =
      let kept = G.xautoclaim-Keeps w.queue stream cursor count in
      let own = G.claimed_entries w.queue stream cursor count in
      (
        given_more w _ stream _ kept (unfold FromStream in own) h,
        λ k i body x. Kept-IsKept w _ _ k i body kept x,
      )
  Step-keeps _ _ (finishes w store b listed) h = (
    unfold IsRight in
        given-Keeps w.queue (finish Q G R F store w.queue b) w.given
          (λ k i body e. (finish-other Q G R F store w.queue b k i).0 ∙ e) h,
    λ k i body x.
        finish-IsKept w store b k i body (given-Has w.queue b w.given listed (unfold IsRight in h))
          x,
  )

  Reach-keeps :
      (u v : Shared Q G R F)
      → Reach Q G R F u v
      → IsRight u
      → IsRight v
        × ((k : Stream) (i : G.MessageId) (body : Option Text)
            → IsKept k i body u
            → IsKept k i body v)
  Reach-keeps u _ here h = (h, λ k i body x. x)
  Reach-keeps u v (next {u = w} before step) h =
      let (right, kept) = Reach-keeps u w before h in
      let (right', kept') = Step-keeps w v step right in
      (right', λ k i body x. kept' k i body (kept k i body x))

  -- From a queue that no worker has read from, whatever the API, the workers and the dead-letter
  -- queue do and in any order, and wherever workers end: a notification id that is enqueued then is
  -- the body of one message, and after any further steps this message is waiting, or pending, or it
  -- was in a batch whose run did not raise and ran the delivery of the notification that the store
  -- had under its id, if there was one.
  pub enqueue-IsKept :
      (q : Q.State) (w v : Shared Q G R F) (nid priority : Text)
      → Reach Q G R F (start Q G R F q) w
      → Reach Q G R F (record w { queue = enqueue Q w.queue nid priority }) v
      → (i : G.MessageId) × IsKept (stream_of priority) i (some nid) v
  unfolding start enqueue
  enqueue-IsKept q w v nid priority before after =
      let (right, _) = Reach-keeps (start Q G R F q) w before (unfold IsRight in tt) in
      let (right', _) = Step-keeps w _ (enqueues w nid priority) right in
      let (i, waiting, own) = G.xadd_new w.queue (stream_of priority) nid in
      (
        i,
        (Reach-keeps _ v after right').1 (stream_of priority) i (some nid)
            (record { on_stream = own; place = inl (inl waiting) }),
      )
