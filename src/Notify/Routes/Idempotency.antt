-- ===== src/Notify/Routes/Idempotency.antt =====
-- The idempotency key of a request, and what a repeated request is told.
use mathlib.Core.List.{append_assoc}
use mathlib.Core.Path.{subst}
use sd_practice_qr_code_gene.Base.{
  ℕ, none, some, ◌++◌, ◌≡◌, ap, sym, ◌∙◌, refl, Option-cases, Bool-cases, inl, inr,
}
use sd_practice_qr_code_gene.Base.Text.{Text, codes, lower, is_in}
use sd_practice_qr_code_gene.Notify.{Notification, SendRequest, compute_key}
use sd_practice_qr_code_gene.Base.Dict
use sd_practice_qr_code_gene.Base.Dict.{Dict}
use sd_practice_qr_code_gene.Breaker.{CircuitBreaker}
use sd_practice_qr_code_gene.Notify.Store
use sd_practice_qr_code_gene.Notify.Store.{NotificationStore}
use sd_practice_qr_code_gene.Notify.Store.Laws.{get_by_key-save}
use sd_practice_qr_code_gene.Notify.Registry.{Config, breaker_of, get_channel, valid_channels}
use sd_practice_qr_code_gene.Notify.Delivery.{Attempt, Outcome, deliver}
use sd_practice_qr_code_gene.Notify.Delivery.Retries.{
  Ends, deliver-Ends, SameIdentity, delivered, exhausted,
}
use sd_practice_qr_code_gene.Notify.Routes.{
  World, SendResponse, Reply, ok, raise, new_notification, deliver_now, send_new, send_known,
  send_notification,
}

-- The key is no function of the three fields alone: a bar moves between user and topic, so two
-- requests of different users can share their key.
pub compute_key-shared :
    (sha256 : Text → Text) (user topic rest message : Text)
    → compute_key sha256 (user ++ codes "|" ++ topic) rest message
      ≡ compute_key sha256 user (topic ++ codes "|" ++ rest) message
unfolding compute_key
compute_key-shared sha256 user topic rest message = ap sha256 (simp append_assoc)

-- What a stored notification makes of a reply.
abbrev reply_of : Notification → Reply SendResponse
reply_of n = ok (record { notification_id = n.notification_id; status = n.status })

identity :
    {n : Notification} {first last : ℕ} {o : Outcome}
    → Ends n first last o
    → SameIdentity o.notification n
identity (delivered _ _ _ _ _ _ same) = same
identity (exhausted _ _ _ _ same) = same

module _ (cfg : Config) (sha256 : Text → Text) (req : SendRequest) where
  key_of : Text
  key_of = compute_key sha256 req.user_id req.topic req.message

  -- A reply, and the notification that the store has for the request's key.
  record IsKnown (p : World × Reply SendResponse) : Type 0 where
    known : Notification
    stored : Store.get_by_key p.0.store key_of ≡ some known
    told : p.1 ≡ reply_of known

  send_known_again :
      (w : World) (new_id : Text) (now : ℕ) (attempts : ℕ → Attempt) (n : Notification)
      → Store.get_by_key w.store key_of ≡ some n
      → send_known cfg sha256 w req new_id now attempts ≡ (w, reply_of n)
  unfolding send_known new_notification key_of
  send_known_again w new_id now attempts n e = rw (e, send_known) refl

  send_new-IsKnown :
      (w : World) (new_id : Text) (now : ℕ) (attempts : ℕ → Attempt)
      → IsKnown (send_new cfg sha256 w (new_notification cfg sha256 req new_id now) attempts)
  unfolding send_new deliver_now new_notification key_of Store.save_status
  send_new-IsKnown w new_id now attempts = record {
    known = o.notification;
    stored =
        subst (λ k. Store.get_by_key (Store.save s o.notification) k ≡ some o.notification) same_key
          (get_by_key-save s o.notification);
    told = refl;
  }
    where
      n : Notification
      n = new_notification cfg sha256 req new_id now

      s : NotificationStore
      s = Store.save w.store n

      o : Outcome
      o = deliver cfg attempts n (breaker_of cfg w.breakers n.channel)

      same_key : o.notification.idempotency_key ≡ key_of
      same_key =
          (identity (deliver-Ends cfg attempts n (breaker_of cfg w.breakers n.channel) refl)).5

  send_known-IsKnown :
      (w : World) (new_id : Text) (now : ℕ) (attempts : ℕ → Attempt)
      → IsKnown (send_known cfg sha256 w req new_id now attempts)
  unfolding send_known
  send_known-IsKnown w new_id now attempts = elim (Option-cases (Store.get_by_key w.store key_of)) [
    | inl e ↦
        unfold key_of new_notification in
        rw (e, send_known) (send_new-IsKnown w new_id now attempts)
    | inr (n, e) ↦
        rw (send_known_again w new_id now attempts n e)
          (record { known = n; stored = e; told = refl })
  ]

  -- A channel that is accepted once is accepted again, whatever the breakers.
  get_channel-accepted :
      (b b' d : Dict CircuitBreaker)
      → get_channel cfg b req.channel ≡ some d
      → (d' : Dict CircuitBreaker) × (get_channel cfg b' req.channel ≡ some d')
  unfolding get_channel
  get_channel-accepted b b' d h = elim (Bool-cases (is_in (lower req.channel) valid_channels)) [
    | inl listed ↦
        (Dict.put b' req.channel (breaker_of cfg b' req.channel), rw (listed, get_channel) refl)
    | inr unknown ↦ absurd (let no_channel : none ≡ some d = rw (unknown, get_channel) at h in cc)
  ]

  send_notification-IsKnown :
      (w : World) (new_id : Text) (now : ℕ) (attempts : ℕ → Attempt) (r : SendResponse)
      → (send_notification cfg sha256 w req new_id now attempts).1 ≡ ok r
      → IsKnown (send_notification cfg sha256 w req new_id now attempts)
        × ((d : Dict CircuitBreaker) × (get_channel cfg w.breakers req.channel ≡ some d))
  unfolding send_notification
  send_notification-IsKnown w new_id now attempts r h =
      elim (Option-cases (get_channel cfg w.breakers req.channel)) [
        | inl e ↦ absurd (let refused : raise 422 ≡ ok r = rw (e, send_notification) at h in cc)
        | inr (d, e) ↦ (
          rw (e, send_notification)
              (send_known-IsKnown (record w { breakers = d }) new_id now attempts),
          (d, e),
        )
      ]

  send_notification_again :
      (p : World × Reply SendResponse) (new_id : Text) (now : ℕ) (attempts : ℕ → Attempt)
      (r : SendResponse) (d : Dict CircuitBreaker)
      → IsKnown p
      → get_channel cfg p.0.breakers req.channel ≡ some d
      → p.1 ≡ ok r
      → ((send_notification cfg sha256 p.0 req new_id now attempts).1 ≡ ok r)
        × ((send_notification cfg sha256 p.0 req new_id now attempts).0.store ≡ p.0.store)
  unfolding send_notification
  send_notification_again p new_id now attempts r d k e h =
      rw (e, send_notification)
        (rw (send_known_again (record p.0 { breakers = d }) new_id now attempts k.known k.stored)
          (sym k.told ∙ h, refl))

-- A repeated request is answered with the notification of the first and its present status, and
-- it leaves the store alone: whatever its new id and its clock, nothing is delivered again.
pub send-send :
    (cfg : Config) (sha256 : Text → Text) (w : World) (req : SendRequest) (new_id new_id' : Text)
    (now now' : ℕ) (attempts attempts' : ℕ → Attempt) (r : SendResponse)
    → (send_notification cfg sha256 w req new_id now attempts).1 ≡ ok r
    → ((send_notification cfg sha256
          (send_notification cfg sha256 w req new_id now attempts).0
          req
          new_id'
          now'
          attempts').1
        ≡ ok r)
      × ((send_notification cfg sha256
            (send_notification cfg sha256 w req new_id now attempts).0
            req
            new_id'
            now'
            attempts').0.store
          ≡ (send_notification cfg sha256 w req new_id now attempts).0.store)
send-send cfg sha256 w req new_id new_id' now now' attempts attempts' r h =
    let (k, (d, e)) = send_notification-IsKnown cfg sha256 req w new_id now attempts r h in
    let first = send_notification cfg sha256 w req new_id now attempts in
    let (d', e') = get_channel-accepted cfg sha256 req w.breakers first.0.breakers d e in
    send_notification_again cfg sha256 req first new_id' now' attempts' r d' k e' h
