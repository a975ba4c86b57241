-- ===== src/Notify/Worker/Group/Promised.antt =====
-- The API and the workers together: what the answer to a request promises.
use sd_practice_qr_code_gene.Base.{[], some, ◌≡◌, refl, sym, ◌∙◌, ap, arith}
use mathlib.Core.Path.{subst}
use sd_practice_qr_code_gene.Base.Text.{Text}
use sd_practice_qr_code_gene.Notify.{SendRequest, pending}
use sd_practice_qr_code_gene.Notify.Queue.{stream_of, enqueue}
use sd_practice_qr_code_gene.Notify.Routes.{ok, Reply, SendResponse}
use sd_practice_qr_code_gene.Notify.Routes.Queued
use sd_practice_qr_code_gene.Notify.Routes.Queued.{
  System, Enqueuing, answered, Arrival, send_notification,
}
use sd_practice_qr_code_gene.Notify.Routes.Queued.Repeats.{
  IsAccepted, FirstSent, promised, dropped, unheard, send-send_all,
}
use sd_practice_qr_code_gene.Notify.Worker.Group.{Group, Shared, Reach, start}
use sd_practice_qr_code_gene.Notify.Worker.Group.NeverLost.{IsKept, enqueue-IsKept}

-- The first request, where its `aenqueue` is answered.
promised_first :
    (S : System) (req : SendRequest) (queue : S.queue.State) (new_id : Text) (e : Enqueuing)
    (queue' : S.queue.State) (r : Reply SendResponse)
    → e ≡ answered
    → FirstSent S req queue new_id e queue' r
    → (queue' ≡ enqueue S.queue queue new_id req.priority)
      × (r ≡ ok (record { notification_id = new_id; status = pending }))
promised_first S req queue new_id _ _ _ up promised = (refl, refl)
promised_first S req queue new_id _ _ _ up dropped = absurd (ground arith)
promised_first S req queue new_id _ _ _ up unheard = absurd (ground arith)

-- A request within the limit, on a channel, with a key that has no notification, and whose
-- `aenqueue` is answered: it is told of its pending notification; and, whatever all programs did with the queue
-- before and do with it then, a message with the notification's id is waiting or pending, or was in
-- a batch whose run did not raise and delivered the notification stored under that id, if any.
pub send-IsKept :
    (S : System) (G : Group S.queue) (w : Queued.Shared S) (req : SendRequest) (a : Arrival)
    (q : S.queue.State) (g v : Shared S.queue G S.store S.formats)
    → IsAccepted S req w a
    → a.enqueuing ≡ answered
    → Reach S.queue G S.store S.formats (start S.queue G S.store S.formats q) g
    → g.queue ≡ w.queue
    → Reach S.queue G S.store S.formats
        (record g { queue = (send_notification S w req a).0.queue })
        v
    → ((send_notification S w req a).1
        ≡ ok (record { notification_id = a.new_id; status = pending }))
      × ((i : G.MessageId) × IsKept S.queue G S.store S.formats
            (stream_of req.priority)
            i
            (some a.new_id)
            v)
send-IsKept S G w req a q g v accepted up before same after =
    let (first, _, _) = send-send_all S req w a [] accepted in
    let (queue, reply) = promised_first S req w.queue a.new_id a.enqueuing _ _ up first in
    let enqueued = queue ∙ ap (λ s. enqueue S.queue s a.new_id req.priority) (sym same) in
    (
      reply,
      enqueue-IsKept S.queue G S.store S.formats q g v a.new_id req.priority before (
          subst (λ s. Reach S.queue G S.store S.formats (record g { queue = s }) v) enqueued after),
    )
