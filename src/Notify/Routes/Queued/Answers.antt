-- ===== src/Notify/Routes/Queued/Answers.antt =====
-- The two endpoints that only read, with Redis and without it.
use sd_practice_qr_code_gene.Base.{
  some, List, [], ◌∷◌, ◌≡◌, ◌↔◌, inl, inr, refl, sym, ◌∙◌, ap, map, Has, Once, Has-map,
  Option-cases,
}
use mathlib.Core.Path.{subst}
use sd_practice_qr_code_gene.Base.Text.{Text}
use sd_practice_qr_code_gene.Notify.{Notification}
use sd_practice_qr_code_gene.Notify.Store
use sd_practice_qr_code_gene.Notify.Store.{NotificationStore}
use sd_practice_qr_code_gene.Notify.RedisStore.Writes.{Writes, Writes-same}
use sd_practice_qr_code_gene.Notify.RedisStore.Lists.{list_for_user-same}
use sd_practice_qr_code_gene.Notify.Routes
use sd_practice_qr_code_gene.Notify.Routes.{World, NotificationSummary, summary_of, detail_of, ok}
use sd_practice_qr_code_gene.Notify.Routes.Queued.{
  System, Shared, get_notification, list_notifications,
}

map-Has :
    {A B : Type 0} (f : A → B) (y : B) (xs : List A)
    → Has y (map f xs)
    → (x : A) × Has x xs × (y ≡ f x)
map-Has f y [] h = elim h [ ]
map-Has f y (x ∷ xs) (inl e) = (x, inl refl, e)
map-Has f y (x ∷ xs) (inr h) = let (z, listed, e) = map-Has f y xs h in (z, inr listed, e)

map_moves :
    {A B : Type 0} (f : A → B) (y : B) (xs ys : List A)
    → ((x : A) → Has x xs → Has x ys)
    → Has y (map f xs)
    → Has y (map f ys)
map_moves f y xs ys move h =
    let (x, listed, e) = map-Has f y xs h in
    subst (λ z. Has z (map f ys)) (sym e) (Has-map f x ys (move x listed))

get_notification-same :
    (S : System) (w : Shared S) (m : World) (nid : Text)
    → Writes S.store S.formats S.ttl w.store m.store
    → get_notification S w nid ≡ Routes.get_notification m nid
unfolding get_notification Routes.get_notification
get_notification-same S w m nid same =
    let found = (Writes-same S.store S.formats S.ttl w.store m.store same nid [] []).0 in
    elim (Option-cases (Store.get m.store nid)) [
      | inl e ↦ rw (found ∙ ap some e, get_notification) (rw (e, Routes.get_notification) refl)
      | inr (n, e) ↦ rw (found ∙ ap some e, get_notification) (rw (e, Routes.get_notification) refl)
    ]

summary_ids :
    (ns : List Notification)
    → map (λ x. x.notification_id) (map summary_of ns) ≡ map (λ n. n.notification_id) ns
unfolding summary_of
summary_ids [] = refl
summary_ids (n ∷ ns) = ap (λ l. n.notification_id ∷ l) (summary_ids ns)

-- Where the store on Redis has had the writes of a store in memory, with nothing lapsing, no error
-- that is the empty text, and statuses only of notifications that are stored, with what identifies
-- them, and own their keys: the endpoint of one notification answers as it does on the store in
-- memory, and the endpoint of a user's notifications answers with the summaries that it gives
-- there, none of them twice on either side, in an order of its own.
pub list_notifications-same :
    (S : System) (w : Shared S) (m : World) (nid user_id : Text)
    → Writes S.store S.formats S.ttl w.store m.store
    → (get_notification S w nid ≡ Routes.get_notification m nid)
      × ((summaries : List NotificationSummary) × (list_notifications S w user_id ≡ ok summaries)
          × ((x : NotificationSummary)
              → Has x summaries ↔ Has x (Routes.list_notifications m user_id))
          × Once (map (λ x. x.notification_id) summaries)
          × Once (map (λ x. x.notification_id) (Routes.list_notifications m user_id)))
unfolding list_notifications Routes.list_notifications
list_notifications-same S w m nid user_id same =
    let (ns, e, listed, once, once_there) =
      list_for_user-same S.store S.formats S.ttl w.store m.store user_id same in
    (
      get_notification-same S w m nid same,
      (
        map summary_of ns,
        rw (e, list_notifications) refl,
        (λ x. (
          map_moves summary_of x ns (Store.list_for_user m.store user_id) (λ n. (listed n).0),
          map_moves summary_of x (Store.list_for_user m.store user_id) ns (λ n. (listed n).1),
        )),
        subst Once (sym (summary_ids ns)) once,
        subst Once (sym (summary_ids (Store.list_for_user m.store user_id))) once_there,
      ),
    )
