-- ===== src/Notify/Worker/Rounds.antt =====
-- What the worker does over its rounds, where no look-up raises.
use sd_practice_qr_code_gene.Base.{
  ℕ, ◌-◌, Bool, true, false, Option, none, some, List, [], ◌∷◌, ◌++◌, ◌≡◌, ◌≢◌, inl, inr, refl, map,
  sym, ◌∙◌, ap, leb, if◌then◌else◌, Bool-cases, All,
}
use mathlib.Core.Path.{ap₂}
use mathlib.Core.Option.{none-ne-some}
use sd_practice_qr_code_gene.Notify.Store.{NotificationStore}
use sd_practice_qr_code_gene.Notify.RedisStore.Writes.{Writes, batch_get-same}
use mathlib.Core.List.{map-append}
use sd_practice_qr_code_gene.Base.Text.{Text}
use sd_practice_qr_code_gene.Notify.{Notification}
use sd_practice_qr_code_gene.Notify.Queue.{Stream, critical_stream, delivery_stream}
use sd_practice_qr_code_gene.Notify.RedisStore.{Redis, batch_get}
use sd_practice_qr_code_gene.Notify.RedisStore.Hashes.{Formats}
use sd_practice_qr_code_gene.Notify.Worker.{
  Effects, Message, Page, and_then, process_batch, claim, recover_stream, recover_pending, Round,
  read_from, flatten, caught, check_pending, run_round, run, keep,
}
use sd_practice_qr_code_gene.Notify.Worker.Reference.{look_up, wanted, process_batch-wanted}

-- A message that a worker has read, with its stream and the store at the look-up of its batch.
pub record Job (R : Redis) (MessageId : Type 0) : Type 0 where
  pub store : R.State
  pub stream : Stream
  pub message : Message MessageId

keep-append {ℓ} : {A : Type ℓ} (o : Option A) (xs ys : List A) → keep o xs ++ ys ≡ keep o (xs ++ ys)
keep-append none xs ys = refl
keep-append (some x) xs ys = refl

-- No HASH of the store raises when it is read.
unfoldable pub IsReadable : (R : Redis) → Formats → R.State → Type 0
IsReadable R F store = (nids : List Text) → batch_get R F store nids ≢ none

-- After writes with nothing lapsing, no HASH raises.
pub Writes-IsReadable :
    (R : Redis) (F : Formats) (ttl : ℕ) (r : R.State) (s : NotificationStore)
    → Writes R F ttl r s
    → IsReadable R F r
unfolding IsReadable
Writes-IsReadable R F ttl r s w nids e = none-ne-some _ (sym e ∙ batch_get-same R F ttl r s w nids)

module _ (R : Redis) (F : Formats) {MessageId : Type 0} where
  -- The notifications of the jobs that have one, in order.
  pub delivered_for : List (Job R MessageId) → List Notification
  delivered_for [] = []
  delivered_for (j ∷ jobs) = keep (look_up R F j.store j.message.1) (delivered_for jobs)

  -- Each job's notification is delivered, if there is one, and each message is acknowledged on its
  -- stream.
  pub each : List (Job R MessageId) → Effects MessageId
  each jobs = record {
    acked = map (λ j. (j.stream, j.message.0)) jobs;
    delivered = delivered_for jobs;
    raised = false;
  }

  pub jobs_of : R.State → Stream → List (Message MessageId) → List (Job R MessageId)
  jobs_of store stream msgs = map (λ m. record { store = store; stream = stream; message = m }) msgs

  pub jobs_of_pages : Stream → List (Page R MessageId) → List (Job R MessageId)
  jobs_of_pages stream [] = []
  jobs_of_pages stream ((store, page) ∷ pages) =
      jobs_of store stream page ++ jobs_of_pages stream pages

  -- What a check of the pending messages recovers, if it is due.
  pub jobs_recovered : Bool → Round R MessageId → List (Job R MessageId)
  jobs_recovered true t =
      jobs_of_pages critical_stream t.critical_pages
      ++ jobs_of_pages delivery_stream t.delivery_pages
  jobs_recovered false t = []

  -- The critical messages if there are any, and else the others.
  pub jobs_read :
      R.State
      → List (List (Message MessageId))
      → List (List (Message MessageId))
      → List (Job R MessageId)
  jobs_read store [] normal_msgs = jobs_of store delivery_stream (flatten normal_msgs)
  jobs_read store (msgs ∷ batches) normal_msgs =
      jobs_of store critical_stream (flatten (msgs ∷ batches))

  pub jobs_in : ℕ → ℕ → Round R MessageId → List (Job R MessageId)
  jobs_in interval last t =
      jobs_recovered (leb interval (t.now - last)) t
      ++ jobs_read t.read_store t.critical_msgs t.normal_msgs

  pub jobs_over : ℕ → ℕ → List (Round R MessageId) → List (Job R MessageId)
  jobs_over interval last [] = []
  jobs_over interval last (t ∷ rounds) =
      jobs_in interval last t
      ++ jobs_over interval (if leb interval (t.now - last) then t.after_check else last) rounds

  delivered_for-append :
      (xs ys : List (Job R MessageId))
      → delivered_for (xs ++ ys) ≡ delivered_for xs ++ delivered_for ys
  unfolding delivered_for
  delivered_for-append [] ys = refl
  delivered_for-append (x ∷ xs) ys =
      ap (keep (look_up R F x.store x.message.1)) (delivered_for-append xs ys)
      ∙ sym (keep-append (look_up R F x.store x.message.1) (delivered_for xs) (delivered_for ys))

  each-append : (xs ys : List (Job R MessageId)) → and_then (each xs) (each ys) ≡ each (xs ++ ys)
  unfolding and_then each
  each-append xs ys = sym (
      ap₂ (λ a d. record { acked = a; delivered = d; raised = false })
        (map-append (λ j. (j.stream, j.message.0)) xs ys) (delivered_for-append xs ys))

  each-jobs_of :
      (store : R.State) (stream : Stream) (msgs : List (Message MessageId))
      → (map {B = Stream × MessageId} (λ m. (stream, m.0)) msgs
          ≡ map (λ j. (j.stream, j.message.0)) (jobs_of store stream msgs))
        × (wanted R F store (map (λ m. m.1) msgs) ≡ delivered_for (jobs_of store stream msgs))
  unfolding jobs_of delivered_for wanted
  each-jobs_of store stream [] = (refl, refl)
  each-jobs_of store stream (m ∷ msgs) =
      let (acked, delivered) = each-jobs_of store stream msgs in
      (ap (λ l. (stream, m.0) ∷ l) acked, ap (keep (look_up R F store m.1)) delivered)

  module _ (store : R.State) (v : IsReadable R F store) where
    batch-each :
        (stream : Stream) (msgs : List (Message MessageId))
        → process_batch R F store stream msgs ≡ each (jobs_of store stream msgs)
    unfolding IsReadable each
    batch-each stream msgs = elim (process_batch-wanted R F store stream msgs) [
      | inl (raises, _) ↦ absurd (v _ raises)
      | inr runs ↦
          let (acked, delivered) = each-jobs_of store stream msgs in
          runs ∙ ap₂ (λ a d. record { acked = a; delivered = d; raised = false }) acked delivered
    ]

    claim-each :
        (stream : Stream) (msgs : List (Message MessageId))
        → claim R F store stream msgs ≡ each (jobs_of store stream msgs)
    unfolding claim
    claim-each stream [] = unfold each jobs_of delivered_for in refl
    claim-each stream (m ∷ msgs) = batch-each stream (m ∷ msgs)

  -- No HASH raises, in any of the stores that the pages of a stream are looked up in.
  abbrev pub AllReadable : List (Page R MessageId) → Type 0
  AllReadable pages = All (λ p. IsReadable R F p.0) pages

  recover_stream-each :
      (stream : Stream) (pages : List (Page R MessageId))
      → AllReadable pages
      → recover_stream R F stream pages ≡ each (jobs_of_pages stream pages)
  unfolding recover_stream jobs_of_pages
  recover_stream-each stream [] v = unfold each delivered_for in refl
  recover_stream-each stream ((store, page) ∷ pages) (here, rest) =
      ap₂ and_then (claim-each store here stream page) (recover_stream-each stream pages rest)
      ∙ each-append (jobs_of store stream page) (jobs_of_pages stream pages)

  recover_pending-each :
      (critical_pages delivery_pages : List (Page R MessageId))
      → AllReadable critical_pages
      → AllReadable delivery_pages
      → recover_pending R F critical_pages delivery_pages
        ≡ each (
            jobs_of_pages critical_stream critical_pages
            ++ jobs_of_pages delivery_stream delivery_pages)
  unfolding recover_pending
  recover_pending-each critical_pages delivery_pages v w =
      ap₂ and_then (recover_stream-each critical_stream critical_pages v)
        (recover_stream-each delivery_stream delivery_pages w)
      ∙ each-append _ _

  -- No HASH raises in a round.
  pub record RoundReadable (t : Round R MessageId) : Type 0 where
    pub critical : AllReadable t.critical_pages
    pub others : AllReadable t.delivery_pages
    pub read : IsReadable R F t.read_store

  read-each :
      (store : R.State) (critical_msgs normal_msgs : List (List (Message MessageId)))
      → IsReadable R F store
      → caught (
          claim R F store
            (read_from critical_msgs normal_msgs).0
            (read_from critical_msgs normal_msgs).1)
        ≡ each (jobs_read store critical_msgs normal_msgs)
  unfolding caught read_from jobs_read each
  read-each store [] normal_msgs v =
      ap caught (claim-each store v delivery_stream (flatten normal_msgs))
  read-each store (msgs ∷ batches) normal_msgs v =
      ap caught (claim-each store v critical_stream (flatten (msgs ∷ batches)))

  check-each :
      (interval last : ℕ) (t : Round R MessageId)
      → RoundReadable t
      → check_pending R F interval last t ≡ (
        if leb interval (t.now - last) then t.after_check else last,
        each (jobs_recovered (leb interval (t.now - last)) t),
      )
  unfolding check_pending jobs_recovered caught each delivered_for
  check-each interval last t v = elim (Bool-cases (leb interval (t.now - last))) [
    | inl due ↦ rw due (
        ap (λ e. (t.after_check, caught e))
          (recover_pending-each t.critical_pages t.delivery_pages v.critical v.others))
    | inr early ↦ rw early refl
  ]

  round-each :
      (interval last : ℕ) (t : Round R MessageId)
      → RoundReadable t
      → run_round R F interval last t ≡ (
        if leb interval (t.now - last) then t.after_check else last,
        each (jobs_in interval last t),
      )
  unfolding run_round jobs_in
  round-each interval last t v =
      rw (check-each interval last t v, run_round)
        (ap (λ e. (if leb interval (t.now - last) then t.after_check else last, e))
          (ap (and_then (each (jobs_recovered (leb interval (t.now - last)) t)))
              (read-each t.read_store t.critical_msgs t.normal_msgs v.read)
            ∙ each-append _ _))

  -- Whatever the streams answer, however the store changes from one batch to the next, and where no
  -- HASH raises when it is read: over its rounds the worker acknowledges each message that it
  -- recovers or reads once for each time, on its stream, and runs the delivery of the notification
  -- that is stored under its id when its batch is looked up, if there is one; in a round it first recovers, if a check is due, critical messages before the others, and reads
  -- other messages only where there are no critical ones.
  pub run-each :
      (interval last : ℕ) (rounds : List (Round R MessageId))
      → All RoundReadable rounds
      → run R F interval last rounds ≡ each (jobs_over interval last rounds)
  unfolding run jobs_over
  run-each interval last [] a = unfold each delivered_for in refl
  run-each interval last (t ∷ rounds) (v, a) =
      rw (round-each interval last t v, run)
        (ap (and_then (each (jobs_in interval last t))) (
            run-each interval (if leb interval (t.now - last) then t.after_check else last) rounds
              a)
          ∙ each-append _ _)
