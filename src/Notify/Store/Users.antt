-- ===== src/Notify/Store/Users.antt =====
-- The ids under a user, in the store in memory.
use sd_practice_qr_code_gene.Base.{
  true, none, some, List, [], ◌∷◌, ◌≡◌, ◌⊎◌, inl, inr, refl, sym, ◌∙◌, ap, ite, if_pos, if_neg,
  arith, map, Has, Once, Option-cases, Bool-cases,
}
use mathlib.Core.Path.{subst}
use mathlib.Core.Option.{some-injective}
use sd_practice_qr_code_gene.Base.Dict
use sd_practice_qr_code_gene.Base.Text.{Text, text_dec}
use sd_practice_qr_code_gene.Notify.{Notification}
use sd_practice_qr_code_gene.Notify.Store
use sd_practice_qr_code_gene.Notify.Store.{NotificationStore, contains, add_id, ids_of}
use sd_practice_qr_code_gene.Notify.Store.Laws.{get-save}

pub contains-Has : (ids : List Text) (x : Text) → contains ids x ≡ true → Has x ids
unfolding contains
contains-Has [] x h = absurd (ground arith)
contains-Has (i ∷ ids) x h = elim (text_dec i x) [
  | yes e ↦ inl (sym e)
  | no e ↦ inr (contains-Has ids x (sym (if_neg (text_dec i x) e _ _) ∙ h))
]

pub add_id-Has : (ids : List Text) (v : Text) → Has v (add_id ids v)
unfolding add_id
add_id-Has ids v = elim (Bool-cases (contains ids v)) [
  | inl listed ↦ rw (listed, add_id) (contains-Has ids v listed)
  | inr new ↦ rw (new, add_id) (inl refl)
]

pub add_id-keeps : (ids : List Text) (v x : Text) → Has x ids → Has x (add_id ids v)
unfolding add_id
add_id-keeps ids v x h = elim (Bool-cases (contains ids v)) [
  | inl listed ↦ rw (listed, add_id) h
  | inr new ↦ rw (new, add_id) (inr h)
]

pub add_id-only : (ids : List Text) (v x : Text) → Has x (add_id ids v) → Has x ids ⊎ (x ≡ v)
unfolding add_id
add_id-only ids v x h = elim (Bool-cases (contains ids v)) [
  | inl listed ↦ inl (rw (listed, add_id) at h)
  | inr new ↦ elim (rw (new, add_id) at h) [ inl e ↦ inr e | inr old ↦ inl old ]
]

Has-contains : (ids : List Text) (x : Text) → Has x ids → contains ids x ≡ true
unfolding contains
Has-contains [] x h = elim h [ ]
Has-contains (i ∷ ids) x (inl e) = if_pos (text_dec i x) (sym e) _ _
Has-contains (i ∷ ids) x (inr h) = ground (arith, Has-contains ids x h)

pub add_id-Once : (ids : List Text) (v : Text) → Once ids → Once (add_id ids v)
unfolding add_id
add_id-Once ids v h = elim (Bool-cases (contains ids v)) [
  | inl listed ↦ rw (listed, add_id) h
  | inr new ↦ rw (new, add_id) ((λ old. absurd (ground (arith, Has-contains ids v old))), h)
]

-- The ids of a user after a save.
pub ids_of-save :
    (s : NotificationStore) (n : Notification) (user : Text)
    → ids_of (Store.save s n) user
      ≡ ite
          (text_dec n.user_id user)
          (add_id (ids_of s n.user_id) n.notification_id)
          (ids_of s user)
unfolding ids_of Store.save
ids_of-save s n user = elim (text_dec n.user_id user) [
  | yes e ↦
      ap (λ o. elim o as (λ _. List Text) [ none ↦ [] | some ids ↦ ids ])
        (Dict.get-put s.by_user n.user_id user _ ∙ if_pos (text_dec n.user_id user) e _ _)
      ∙ sym (if_pos (text_dec n.user_id user) e _ _)
  | no e ↦
      ap (λ o. elim o as (λ _. List Text) [ none ↦ [] | some ids ↦ ids ])
        (Dict.get-put s.by_user n.user_id user _ ∙ if_neg (text_dec n.user_id user) e _ _)
      ∙ sym (if_neg (text_dec n.user_id user) e _ _)
]

module _ (s : NotificationStore) (n : Notification) (user x : Text) where
  pub ids_of-save_new : n.user_id ≡ user → Has n.notification_id (ids_of (Store.save s n) user)
  ids_of-save_new e =
      subst (Has n.notification_id)
        (sym (ids_of-save s n user ∙ if_pos (text_dec n.user_id user) e _ _))
        (add_id-Has (ids_of s n.user_id) n.notification_id)

  pub ids_of-save_keeps : Has x (ids_of s user) → Has x (ids_of (Store.save s n) user)
  ids_of-save_keeps h = elim (text_dec n.user_id user) [
    | yes e ↦ subst (Has x) (sym (ids_of-save s n user ∙ if_pos (text_dec n.user_id user) e _ _)) (
        add_id-keeps (ids_of s n.user_id) n.notification_id x
          (subst (λ u. Has x (ids_of s u)) (sym e) h))
    | no e ↦ subst (Has x) (sym (ids_of-save s n user ∙ if_neg (text_dec n.user_id user) e _ _)) h
  ]

  pub ids_of-save_only :
      Has x (ids_of (Store.save s n) user)
      → Has x (ids_of s user) ⊎ ((n.user_id ≡ user) × (x ≡ n.notification_id))
  ids_of-save_only h = elim (text_dec n.user_id user) [
    | yes e ↦
        let h' = subst (Has x) (ids_of-save s n user ∙ if_pos (text_dec n.user_id user) e _ _) h in
        elim (add_id-only (ids_of s n.user_id) n.notification_id x h') [
          | inl old ↦ inl (subst (λ u. Has x (ids_of s u)) e old)
          | inr new ↦ inr (e, new)
        ]
    | no e ↦ inl (subst (Has x) (ids_of-save s n user ∙ if_neg (text_dec n.user_id user) e _ _) h)
  ]

-- Under no user does an id come twice.
pub save-Once :
    (s : NotificationStore) (n : Notification)
    → ((user : Text) → Once (ids_of s user))
    → (user : Text) → Once (ids_of (Store.save s n) user)
save-Once s n v user = elim (text_dec n.user_id user) [
  | yes e ↦
      subst Once (sym (ids_of-save s n user ∙ if_pos (text_dec n.user_id user) e _ _))
        (add_id-Once (ids_of s n.user_id) n.notification_id (v n.user_id))
  | no e ↦ subst Once (sym (ids_of-save s n user ∙ if_neg (text_dec n.user_id user) e _ _)) (v user)
]

-- Each stored notification is under its id and among those of its user.
abbrev pub IsOwned : NotificationStore → Type 0
IsOwned s =
    (nid : Text) (n : Notification)
    → Store.get s nid ≡ some n
    → (n.notification_id ≡ nid) × Has nid (ids_of s n.user_id)

pub save-IsOwned : (s : NotificationStore) (n : Notification) → IsOwned s → IsOwned (Store.save s n)
save-IsOwned s n v nid m e = elim (text_dec n.notification_id nid) [
  | yes p ↦
      let same : n ≡ m =
        some-injective n m
          (sym (if_pos (text_dec n.notification_id nid) p _ _) ∙ sym (get-save s n nid) ∙ e) in
      subst (λ x. (x.notification_id ≡ nid) × Has nid (ids_of (Store.save s n) x.user_id)) same
        (
          p,
          subst (λ i. Has i (ids_of (Store.save s n) n.user_id)) p
              (ids_of-save_new s n n.user_id nid refl),
        )
  | no p ↦
      let (own, listed) =
        v nid m
          (sym (if_neg (text_dec n.notification_id nid) p _ _) ∙ sym (get-save s n nid) ∙ e) in
      (own, ids_of-save_keeps s n m.user_id nid listed)
]

pub get-init : (nid : Text) → Store.get Store.init nid ≡ none
unfolding Store.get
get-init nid = Dict.get-empty nid

pub ids_of-init : (user : Text) → ids_of Store.init user ≡ []
unfolding ids_of
ids_of-init user =
    ap (λ o. elim o as (λ _. List Text) [ none ↦ [] | some ids ↦ ids ])
      (Dict.get-empty {V = List Text} user)

-- What is listed for some ids.
pub Has-present :
    (s : NotificationStore) (ids : List Text) (n : Notification)
    → Has n (Store.present s ids)
    → (nid : Text) × Has nid ids × (Store.get s nid ≡ some n)
unfolding Store.present
Has-present s [] n h = elim h [ ]
Has-present s (i ∷ ids) n h = elim (Option-cases (Store.get s i)) [
  | inl e ↦
      let (nid, listed, own) = Has-present s ids n (rw (e, Store.present) at h) in
      (nid, inr listed, own)
  | inr (m, e) ↦ elim (rw (e, Store.present) at h) [
    | inl same ↦ (i, inl refl, e ∙ ap some (sym same))
    | inr later ↦ let (nid, listed, own) = Has-present s ids n later in (nid, inr listed, own)
  ]
]

pub present-Has :
    (s : NotificationStore) (ids : List Text) (n : Notification) (nid : Text)
    → Has nid ids
    → Store.get s nid ≡ some n
    → Has n (Store.present s ids)
unfolding Store.present
present-Has s [] n nid h e = elim h [ ]
present-Has s (i ∷ ids) n nid (inl same) e =
    rw (ap (Store.get s) (sym same) ∙ e, Store.present) (inl refl)
present-Has s (i ∷ ids) n nid (inr later) e = elim (Option-cases (Store.get s i)) [
  | inl none_here ↦ rw (none_here, Store.present) (present-Has s ids n nid later e)
  | inr (m, here) ↦ rw (here, Store.present) (inr (present-Has s ids n nid later e))
]

Has-present_id :
    (s : NotificationStore) (ids : List Text) (x : Text)
    → IsOwned s
    → Has x (map (λ n. n.notification_id) (Store.present s ids))
    → Has x ids
unfolding Store.present
Has-present_id s [] x v h = elim h [ ]
Has-present_id s (i ∷ ids) x v h = elim (Option-cases (Store.get s i)) [
  | inl e ↦ inr (Has-present_id s ids x v (rw (e, Store.present) at h))
  | inr (m, e) ↦ elim (rw (e, Store.present) at h) [
    | inl same ↦ inl (same ∙ (v i m e).0)
    | inr later ↦ inr (Has-present_id s ids x v later)
  ]
]

-- What is listed for ids of which none comes twice has no id twice.
pub present-Once :
    (s : NotificationStore) (ids : List Text)
    → IsOwned s
    → Once ids
    → Once (map (λ n. n.notification_id) (Store.present s ids))
unfolding Store.present
present-Once s [] v h = tt
present-Once s (i ∷ ids) v (here, rest) = elim (Option-cases (Store.get s i)) [
  | inl e ↦ rw (e, Store.present) (present-Once s ids v rest)
  | inr (m, e) ↦
      rw (e, Store.present)
        (
          (λ h.
              here
                (subst (λ x. Has x ids) (v i m e).0 (Has-present_id s ids m.notification_id v h))),
          present-Once s ids v rest,
        )
]
