-- ===== src/Notify/Queue/Tests.antt =====
-- Runs of the theorems of the queue, on plain lists.
use sd_practice_qr_code_gene.Base.{Option, none, some, List, [], ◌∷◌, ◌++◌, ◌≡◌, refl, arith}
use sd_practice_qr_code_gene.Base.Text.{Text, codes}
use sd_practice_qr_code_gene.Notify.Queue.{
  Redis, Stream, critical_stream, delivery_stream, dlq_retry_batch,
}
use sd_practice_qr_code_gene.Notify.Queue.Retry.{dlq_retry_batch-moves}

pub record Lists : Type 0 where
  pub critical : List Text
  pub delivery : List Text
  pub dead : List Text

abbrev pub read : Lists → Stream → List Text
read s critical_stream = s.critical
read s delivery_stream = s.delivery

abbrev pub append_to : Lists → Stream → Text → Lists
append_to s critical_stream nid = record s { critical = s.critical ++ nid ∷ [] }
append_to s delivery_stream nid = record s { delivery = s.delivery ++ nid ∷ [] }

abbrev pub pop_from : Lists → List Text → Lists × Option Text
pop_from s [] = (s, none)
pop_from s (nid ∷ nids) = (record s { dead = nids }, some nid)

pub read-append_to :
    (s : Lists) (k : Stream) (nid : Text) → read (append_to s k nid) k ≡ read s k ++ nid ∷ []
read-append_to s critical_stream nid = refl
read-append_to s delivery_stream nid = refl

pub dead-append_to : (s : Lists) (k : Stream) (nid : Text) → (append_to s k nid).dead ≡ s.dead
dead-append_to s critical_stream nid = refl
dead-append_to s delivery_stream nid = refl

pub read-pop_from : (s : Lists) (l : List Text) (k : Stream) → read (pop_from s l).0 k ≡ read s k
read-pop_from s [] k = refl
read-pop_from s (nid ∷ nids) critical_stream = refl
read-pop_from s (nid ∷ nids) delivery_stream = refl

abbrev pub test_redis : Redis
test_redis = record {
  State = Lists;
  stream = read;
  dead = λ s. s.dead;
  xadd = append_to;
  rpush = λ s nid. record s { dead = s.dead ++ nid ∷ [] };
  lpop = λ s. pop_from s s.dead;
  stream-xadd = read-append_to;
  dead-xadd = dead-append_to;
  dead-rpush = λ s nid. refl;
  stream-lpop = λ s k. read-pop_from s s.dead k;
  lpop_empty = λ s e. rw e (refl, refl);
  lpop_first = λ s nid nids e. rw e (refl, refl);
}

abbrev pub two_dead : Lists
two_dead = record { critical = []; delivery = codes "n1" ∷ []; dead = codes "n2" ∷ codes "n3" ∷ [] }

dlq_retry_batch-moves_example :
    ((dlq_retry_batch test_redis two_dead 1).1 ≡ codes "n2" ∷ [])
    × ((dlq_retry_batch test_redis two_dead 1).0.delivery ≡ codes "n1" ∷ codes "n2" ∷ [])
    × ((dlq_retry_batch test_redis two_dead 1).0.dead ≡ codes "n3" ∷ [])
dlq_retry_batch-moves_example =
    dlq_retry_batch-moves test_redis two_dead 1 ((λ e. ground arith), ((λ e. ground arith), tt))
