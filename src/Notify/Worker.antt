-- ===== src/Notify/Worker.antt =====
-- notification_system/app/worker.py over the store on Redis. What the streams answer in a round is an
-- argument: the pages of `xautoclaim`, up to the one whose cursor is "0-0", and the batches of
-- `xreadgroup`, none of which raises. A message is its id and its `notification_id`.
mod Tests
pub mod Reference
pub mod Rounds
pub mod Group
pub mod Delivers
use sd_practice_qr_code_gene.Base.{
  ℕ, ◌+◌, ◌-◌, Bool, true, false, Option, none, some, List, [], ◌∷◌, ◌++◌, map, leb, length,
  if◌then◌else◌,
}
use sd_practice_qr_code_gene.Base.Dict
use sd_practice_qr_code_gene.Base.Dict.{Dict}
use sd_practice_qr_code_gene.Base.Text.{Text}
use sd_practice_qr_code_gene.Notify.{Notification}
use sd_practice_qr_code_gene.Notify.Queue.{Stream, critical_stream, delivery_stream}
use sd_practice_qr_code_gene.Notify.RedisStore.{Redis, batch_get}
use sd_practice_qr_code_gene.Notify.RedisStore.Hashes.{Formats}

-- What a part of the program does to the world, in order: the messages that it acknowledges, each
-- on its stream, and the notifications whose delivery it runs; and whether it raises then.
pub record Effects (MessageId : Type 0) : Type 0 where
  pub acked : List (Stream × MessageId)
  pub delivered : List Notification
  pub raised : Bool

abbrev pub nothing : {MessageId : Type 0} → Effects MessageId
nothing = record { acked = []; delivered = []; raised = false }

-- One part after another, unless the first raises.
unfoldable pub and_then :
    {MessageId : Type 0} → Effects MessageId → Effects MessageId → Effects MessageId
and_then e f = if e.raised then e else record {
  acked = e.acked ++ f.acked;
  delivered = e.delivered ++ f.delivered;
  raised = f.raised;
}

-- `[nid for nid in nids if nid]`
unfoldable pub nid_list : List (Option Text) → List Text
nid_list [] = []
nid_list (none ∷ nids) = nid_list nids
nid_list (some [] ∷ nids) = nid_list nids
nid_list (some (c ∷ s) ∷ nids) = (c ∷ s) ∷ nid_list nids

-- `nid_to_notif`, from the pairs that are left
unfoldable pub nid_to_notif :
    Dict Notification → List Text → List (Option Notification) → Dict Notification
nid_to_notif d [] ns = d
nid_to_notif d (nid ∷ nids) [] = d
nid_to_notif d (nid ∷ nids) (none ∷ ns) = nid_to_notif d nids ns
nid_to_notif d (nid ∷ nids) (some n ∷ ns) = nid_to_notif (Dict.put d nid n) nids ns

-- `nid_to_notif.get(nid) if nid else None`
unfoldable pub notification_of : Dict Notification → Option Text → Option Notification
notification_of d none = none
notification_of d (some []) = none
notification_of d (some (c ∷ s)) = Dict.get d (c ∷ s)

abbrev pub keep {ℓ} : {A : Type ℓ} → Option A → List A → List A
keep none rest = rest
keep (some n) rest = n ∷ rest

-- The deliveries of a batch; a message without a notification is only slept over.
unfoldable pub deliver_tasks : Dict Notification → List (Option Text) → List Notification
deliver_tasks d [] = []
deliver_tasks d (nid ∷ nids) = keep (notification_of d nid) (deliver_tasks d nids)

-- A message, as the client decodes it.
abbrev pub Message : Type 0 → Type 0
Message MessageId = MessageId × Option Text

unfoldable pub flatten :
    {MessageId : Type 0} → List (List (Message MessageId)) → List (Message MessageId)
flatten [] = []
flatten (msgs ∷ batches) = msgs ++ flatten batches

-- What one `xautoclaim` answers, with the store at the look-up of its messages: the deliveries of an
-- earlier page, and other programs, have written to it.
abbrev pub Page : Redis → Type 0 → Type 0
Page R MessageId = R.State × List (Message MessageId)

-- What happens to one round of `run`: the monotonic clock at its start and after a recovery, the
-- answers of the streams to each command that the round may send, and the store at the look-up of
-- the messages that it reads.
pub record Round (R : Redis) (MessageId : Type 0) : Type 0 where
  pub now : ℕ
  pub after_check : ℕ
  pub critical_pages : List (Page R MessageId)
  pub delivery_pages : List (Page R MessageId)
  pub read_store : R.State
  pub critical_msgs : List (List (Message MessageId))
  pub normal_msgs : List (List (Message MessageId))

-- The stream that a round reads from, and the messages: `if critical_msgs`
unfoldable pub read_from :
    {MessageId : Type 0}
    → List (List (Message MessageId))
    → List (List (Message MessageId))
    → Stream × List (Message MessageId)
read_from [] normal_msgs = (delivery_stream, flatten normal_msgs)
read_from (msgs ∷ batches) normal_msgs = (critical_stream, flatten (msgs ∷ batches))

-- Exceptions are caught.
unfoldable pub caught : {MessageId : Type 0} → Effects MessageId → Effects MessageId
caught e = record e { raised = false }

module _ (R : Redis) (F : Formats) {MessageId : Type 0} where
  -- An exception of a delivery is printed, and does not keep the batch from being acknowledged.
  unfoldable pub process_batch : R.State → Stream → List (Message MessageId) → Effects MessageId
  process_batch store stream msgs =
      let nids = map (λ m. m.1) msgs in
      elim (batch_get R F store (nid_list nids)) [
        | none ↦ record { acked = []; delivered = []; raised = true }
        | some notifications ↦ record {
          acked = map (λ m. (stream, m.0)) msgs;
          delivered = deliver_tasks (nid_to_notif Dict.empty (nid_list nids) notifications) nids;
          raised = false;
        }
      ]

  -- `if claimed`
  unfoldable pub claim : R.State → Stream → List (Message MessageId) → Effects MessageId
  claim store stream [] = nothing
  claim store stream (m ∷ msgs) = process_batch store stream (m ∷ msgs)

  -- The `while` loop of one stream, over its pages.
  unfoldable pub recover_stream : Stream → List (Page R MessageId) → Effects MessageId
  recover_stream stream [] = nothing
  recover_stream stream ((store, page) ∷ pages) =
      and_then (claim store stream page) (recover_stream stream pages)

  -- The total that it returns is only printed.
  unfoldable pub recover_pending :
      List (Page R MessageId) → List (Page R MessageId) → Effects MessageId
  recover_pending critical_pages delivery_pages =
      and_then (recover_stream critical_stream critical_pages)
        (recover_stream delivery_stream delivery_pages)

  -- `interval` is PEL_CHECK_INTERVAL_S.
  unfoldable pub check_pending : ℕ → ℕ → Round R MessageId → ℕ × Effects MessageId
  check_pending interval last t =
      if leb interval (t.now - last)
      then (t.after_check, caught (recover_pending t.critical_pages t.delivery_pages))
      else (last, nothing)

  unfoldable pub run_round : ℕ → ℕ → Round R MessageId → ℕ × Effects MessageId
  run_round interval last t =
      let (last', recovered) = check_pending interval last t in
      let (stream, msgs) = read_from t.critical_msgs t.normal_msgs in
      (last', and_then recovered (caught (claim t.read_store stream msgs)))

  unfoldable pub run : ℕ → ℕ → List (Round R MessageId) → Effects MessageId
  run interval last [] = nothing
  run interval last (t ∷ rounds) =
      let (last', e) = run_round interval last t in and_then e (run interval last' rounds)
