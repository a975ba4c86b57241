-- ===== src/Notify/Worker/Reference.antt =====
-- About a batch, next to looking each message's notification up by itself.
use sd_practice_qr_code_gene.Base.{
  true, false, Option, none, some, List, [], ◌∷◌, ◌≡◌, ◌⊎◌, inl, inr, refl, map, sym, ◌∙◌, ap,
  if_pos, if_neg, Option-cases,
}
use mathlib.Core.Option.{none-ne-some, some-injective}
use mathlib.Core.Path.{ap₂}
use mathlib.Core.List.{nil≢cons, head-eq_of_cons-eq, tail-eq_of_cons-eq}
use sd_practice_qr_code_gene.Base.Dict
use sd_practice_qr_code_gene.Base.Dict.{Dict}
use sd_practice_qr_code_gene.Base.Text.{Text, In, text_dec}
use sd_practice_qr_code_gene.Notify.{Notification}
use sd_practice_qr_code_gene.Notify.Queue.{Stream}
use sd_practice_qr_code_gene.Notify.RedisStore
use sd_practice_qr_code_gene.Notify.RedisStore.{Redis, collect, batch_get}
use sd_practice_qr_code_gene.Notify.RedisStore.Hashes.{Formats}
use sd_practice_qr_code_gene.Notify.Worker.{
  Message, keep, nid_list, nid_to_notif, notification_of, deliver_tasks, process_batch,
}

collect-some {ℓ} :
    {A : Type ℓ} (o : Option A) (rest : Option (List A)) (ns : List A)
    → collect o rest ≡ some ns
    → (n : A) × (os : List A) × (ns ≡ n ∷ os) × (o ≡ some n) × (rest ≡ some os)
collect-some none rest ns e = absurd (none-ne-some ns e)
collect-some (some n) none ns e = absurd (none-ne-some ns e)
collect-some (some n) (some os) ns e = (n, os, some-injective ns (n ∷ os) (sym e), refl, refl)

collect-cons {ℓ} :
    {A : Type ℓ} (o : Option A) (rest : Option (List A)) (n : A) (ns : List A)
    → collect o rest ≡ some (n ∷ ns)
    → (o ≡ some n) × (rest ≡ some ns)
collect-cons o rest n ns e =
    let (m, ms, split, here, later) = collect-some o rest (n ∷ ns) e in
    (
      here ∙ ap some (sym (head-eq_of_cons-eq split)),
      later ∙ ap some (sym (tail-eq_of_cons-eq split)),
    )

module _ (R : Redis) (F : Formats) (store : R.State) where
  -- The notification of an id, or none; an exception counts as none.
  pub stored_under : Text → Option Notification
  stored_under nid = elim (RedisStore.get R F store nid) [ none ↦ none | some o ↦ o ]

  pub look_up : Option Text → Option Notification
  look_up none = none
  look_up (some []) = none
  look_up (some (c ∷ s)) = stored_under (c ∷ s)

  -- One look-up for each message.
  unfoldable pub wanted : List (Option Text) → List Notification
  wanted [] = []
  wanted (nid ∷ nids) = keep (look_up nid) (wanted nids)

  -- A key of the dictionary has what the store has, or is still to be met.
  IsRight : Dict Notification → List Text → Text → Type 0
  IsRight d nids j = (Dict.get d j ≡ stored_under j) ⊎ ((Dict.get d j ≡ none) × In j nids)

  stored_under-some :
      (nid : Text) (o : Option Notification)
      → RedisStore.get R F store nid ≡ some o
      → stored_under nid ≡ o
  unfolding stored_under
  stored_under-some nid o e = rw (e, stored_under) refl

  IsRight-none :
      (d : Dict Notification) (nid : Text) (nids : List Text) (j : Text)
      → RedisStore.get R F store nid ≡ some none
      → IsRight d (nid ∷ nids) j
      → IsRight d nids j
  unfolding IsRight
  IsRight-none d nid nids j here (inl right) = inl right
  IsRight-none d nid nids j here (inr (missing, inl e)) =
      inl (missing ∙ sym (ap stored_under e ∙ stored_under-some nid none here))
  IsRight-none d nid nids j here (inr (missing, inr own)) = inr (missing, own)

  IsRight-some :
      (d : Dict Notification) (nid : Text) (n : Notification) (nids : List Text) (j : Text)
      → RedisStore.get R F store nid ≡ some (some n)
      → IsRight d (nid ∷ nids) j
      → IsRight (Dict.put d nid n) nids j
  unfolding IsRight
  IsRight-some d nid n nids j here h = elim (text_dec nid j) [
    | yes p ↦ inl (
        Dict.get-put d nid j n
        ∙ if_pos (text_dec nid j) p _ _
        ∙ sym (ap stored_under (sym p) ∙ stored_under-some nid (some n) here))
    | no p ↦
        let kept = Dict.get-put d nid j n ∙ if_neg (text_dec nid j) p _ _ in
        elim h [
          | inl right ↦ inl (kept ∙ right)
          | inr (missing, inl e) ↦ absurd (p (sym e))
          | inr (missing, inr own) ↦ inr (kept ∙ missing, own)
        ]
  ]

  nid_to_notif-get :
      (d : Dict Notification) (nids : List Text) (ns : List (Option Notification)) (j : Text)
      → batch_get R F store nids ≡ some ns
      → IsRight d nids j
      → Dict.get (nid_to_notif d nids ns) j ≡ stored_under j
  unfolding nid_to_notif stored_under IsRight batch_get
  nid_to_notif-get d [] ns j e (inl right) = right
  nid_to_notif-get d [] ns j e (inr (_, own)) = elim own [ ]
  nid_to_notif-get d (nid ∷ nids) [] j e h =
      let (o, os, split, here, later) = collect-some _ _ [] e in absurd (nil≢cons split)
  nid_to_notif-get d (nid ∷ nids) (none ∷ ns) j e h =
      let (here, later) = collect-cons _ _ none ns e in
      nid_to_notif-get d nids ns j later (IsRight-none d nid nids j here h)
  nid_to_notif-get d (nid ∷ nids) (some n ∷ ns) j e h =
      let (here, later) = collect-cons _ _ (some n) ns e in
      nid_to_notif-get (Dict.put d nid n) nids ns j later (IsRight-some d nid n nids j here h)

  deliver_tasks-wanted :
      (d : Dict Notification) (nids : List (Option Text))
      → ((j : Text) → In j (nid_list nids) → Dict.get d j ≡ stored_under j)
      → deliver_tasks d nids ≡ wanted nids
  unfolding deliver_tasks wanted notification_of look_up nid_list
  deliver_tasks-wanted d [] h = refl
  deliver_tasks-wanted d (none ∷ nids) h = deliver_tasks-wanted d nids h
  deliver_tasks-wanted d (some [] ∷ nids) h = deliver_tasks-wanted d nids h
  deliver_tasks-wanted d (some (c ∷ s) ∷ nids) h =
      ap₂ keep (h (c ∷ s) (inl refl)) (deliver_tasks-wanted d nids (λ j own. h j (inr own)))

  -- A batch whose look-up raises acknowledges and delivers nothing; any other runs, for each of its
  -- messages in turn, the delivery of the notification that a look-up of its id alone finds, and
  -- acknowledges each message once, in order and on its stream.
  pub process_batch-wanted :
      {MessageId : Type 0} (stream : Stream) (msgs : List (Message MessageId))
      → ((batch_get R F store (nid_list (map (λ m. m.1) msgs)) ≡ none)
          × (process_batch R F store stream msgs
              ≡ record { acked = []; delivered = []; raised = true }))
        ⊎ (process_batch R F store stream msgs ≡ record {
          acked = map (λ m. (stream, m.0)) msgs;
          delivered = wanted (map (λ m. m.1) msgs);
          raised = false;
        })
  unfolding process_batch IsRight
  process_batch-wanted stream msgs =
      let nids = map (λ m. m.1) msgs in
      elim (Option-cases (batch_get R F store (nid_list nids))) [
        | inl e ↦ inl (e, rw (e, process_batch) refl)
        | inr (ns, e) ↦ inr (
            rw (e, process_batch)
              (ap
                (λ l. record {
                  acked = map (λ m. (stream, m.0)) msgs;
                  delivered = l;
                  raised = false;
                })
                (deliver_tasks-wanted (nid_to_notif Dict.empty (nid_list nids) ns) nids (λ j own.
                  nid_to_notif-get Dict.empty (nid_list nids) ns j e
                    (inr (Dict.get-empty j, own))))))
      ]
