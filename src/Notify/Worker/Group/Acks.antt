-- ===== src/Notify/Worker/Group/Acks.antt =====
-- What the end of a batch acknowledges, and what it has delivered by then.
use sd_practice_qr_code_gene.Base.{
  false, Option, none, some, List, [], ◌∷◌, ◌≡◌, ◌⊎◌, inl, inr, refl, sym, ◌∙◌, ap, map, Has,
  Has-map,
}
use mathlib.Core.Path.{subst, ap₂}
use mathlib.Core.Option.{some-injective, none-ne-some}
use sd_practice_qr_code_gene.Base.Text.{Text}
use sd_practice_qr_code_gene.Notify.{Notification}
use sd_practice_qr_code_gene.Notify.Queue
use sd_practice_qr_code_gene.Notify.Queue.{Stream}
use sd_practice_qr_code_gene.Notify.RedisStore
use sd_practice_qr_code_gene.Notify.RedisStore.Hashes.{Formats}
use sd_practice_qr_code_gene.Notify.Worker.{Message, keep, process_batch}
use sd_practice_qr_code_gene.Notify.Worker.Reference.{look_up, wanted, process_batch-wanted}
use sd_practice_qr_code_gene.Notify.Worker.Group.{Group, Batch, Run, acknowledge, finish}
use sd_practice_qr_code_gene.Notify.Worker.Group.Kept.{FromStream}

Has-keep_first :
    (o : Option Notification) (n : Notification) (rest : List Notification)
    → o ≡ some n
    → Has n (keep o rest)
Has-keep_first none n rest e = absurd (none-ne-some n e)
Has-keep_first (some m) n rest e = inl (sym (some-injective m n e))

Has-keep :
    (o : Option Notification) (n : Notification) (rest : List Notification)
    → Has n rest
    → Has n (keep o rest)
Has-keep none n rest h = h
Has-keep (some m) n rest h = inr h

-- The notification of a message of a batch is among those that the batch wants.
Has-wanted :
    (R : RedisStore.Redis) (F : Formats) (store : R.State) (bodies : List (Option Text))
    (body : Option Text) (n : Notification)
    → Has body bodies
    → look_up R F store body ≡ some n
    → Has n (wanted R F store bodies)
unfolding wanted
Has-wanted R F store [] body n h e = elim h [ ]
Has-wanted R F store (b ∷ bodies) body n (inl same) e =
    Has-keep_first (look_up R F store b) n _ (ap (look_up R F store) (sym same) ∙ e)
Has-wanted R F store (b ∷ bodies) body n (inr later) e =
    Has-keep (look_up R F store b) n _ (Has-wanted R F store bodies body n later e)

module _ (Q : Queue.Redis) (G : Group Q) where
  acknowledge-other :
      (q : Q.State) (ids : List (Stream × G.MessageId)) (k : Stream) (i : G.MessageId)
      → (G.entry (acknowledge Q G q ids) k i ≡ G.entry q k i)
        × (G.IsWaiting q k i → G.IsWaiting (acknowledge Q G q ids) k i)
        × (G.IsPending q k i → G.IsPending (acknowledge Q G q ids) k i ⊎ Has (k, i) ids)
  unfolding acknowledge
  acknowledge-other q [] k i = (refl, λ h. h, λ h. inl h)
  acknowledge-other q ((j, l) ∷ ids) k i =
      let (entries, waiting, pending) = acknowledge-other (G.xack q j l) ids k i in
      (
        entries ∙ G.entry-xack q j k l i,
        λ h. waiting (G.waiting-xack q j k l i h),
        λ h. elim (G.pending-xack q j k l i h) [
          | inl still ↦ elim (pending still) [ inl p ↦ inl p | inr listed ↦ inr (inr listed) ]
          | inr (stream, id) ↦ inr (inl (ap₂ (λ a b. (a, b)) (sym stream) (sym id)))
        ],
      )

  -- The acknowledged message of a batch, with its own body.
  Has-acked :
      (q : Q.State) (stream k : Stream) (i : G.MessageId) (body : Option Text)
      (msgs : List (Message G.MessageId))
      → G.entry q k i ≡ some body
      → FromStream Q G q stream msgs
      → Has {A = Stream × G.MessageId} (k, i) (map (λ m. (stream, m.0)) msgs)
      → (stream ≡ k) × Has (i, body) msgs
  unfolding FromStream
  Has-acked q stream k i body [] e own h = elim h [ ]
  Has-acked q stream k i body (m ∷ msgs) e (here, later) (inl same) =
      let stream_same : k ≡ stream = ap (λ p. p.0) same in
      let id_same : i ≡ m.0 = ap (λ p. p.1) same in
      let found : some body ≡ some m.1 = sym e ∙ ap₂ (G.entry q) stream_same id_same ∙ here in
      (sym stream_same, inl (ap₂ (λ a b. (a, b)) id_same (some-injective body m.1 found)))
  Has-acked q stream k i body (m ∷ msgs) e (here, later) (inr h) =
      let (same, listed) = Has-acked q stream k i body msgs e later h in (same, inr listed)

module _ (Q : Queue.Redis) (G : Group Q) (R : RedisStore.Redis) (F : Formats) where
  -- A run of a batch handles a message: the message is in the batch, and the run, which did not
  -- raise, runs the delivery of the notification that the store has under the message's id, if
  -- there is one.
  pub record Handles (run : Run Q G R F) (k : Stream) (i : G.MessageId) (body : Option Text)
      : Type 0 where
    pub stream : run.batch.stream ≡ k
    pub message : Has (i, body) run.batch.messages
    pub returns : (process_batch R F run.store run.batch.stream run.batch.messages).raised ≡ false
    pub delivers :
        (n : Notification)
        → look_up R F run.store body ≡ some n
        → Has n (process_batch R F run.store run.batch.stream run.batch.messages).delivered

  -- At the end of a batch, a pending message is pending still, or the run has handled it.
  pub finish-Handles :
      (store : R.State) (q : Q.State) (b : Batch Q G R F) (k : Stream) (i : G.MessageId)
      (body : Option Text)
      → G.entry q k i ≡ some body
      → FromStream Q G q b.stream b.messages
      → G.IsPending q k i
      → G.IsPending (finish Q G R F store q b) k i
        ⊎ Handles (record { store = store; batch = b }) k i body
  unfolding finish
  finish-Handles store q b k i body e own h =
      elim (process_batch-wanted R F store b.stream b.messages) [
        | inl (_, raises) ↦ inl (rw raises (unfold acknowledge in h))
        | inr runs ↦
            elim ((acknowledge-other Q G q (process_batch R F store b.stream b.messages).acked k
                i).2
              h) [
                | inl still ↦ inl still
                | inr acked ↦
                    let listed = subst (λ x. Has (k, i) x.acked) runs acked in
                    let (same, message) =
                      Has-acked Q G q b.stream k i body b.messages e own listed in
                    inr (record {
                      stream = same;
                      message = message;
                      returns = ap (λ x. x.raised) runs;
                      delivers = λ n found.
                          subst (λ x. Has n x.delivered) (sym runs)
                            (Has-wanted R F store (map (λ m. m.1) b.messages) body n
                              (Has-map (λ m. m.1) (i, body) b.messages message) found);
                    })
              ]
      ]

  pub finish-other :
      (store : R.State) (q : Q.State) (b : Batch Q G R F) (k : Stream) (i : G.MessageId)
      → (G.entry (finish Q G R F store q b) k i ≡ G.entry q k i)
        × (G.IsWaiting q k i → G.IsWaiting (finish Q G R F store q b) k i)
  unfolding finish
  finish-other store q b k i =
      let (entries, waiting, _) =
        acknowledge-other Q G q (process_batch R F store b.stream b.messages).acked k i in
      (entries, waiting)
