-- ===== src/Notify/Routes/Fanout/Recipients.antt =====
-- Whom a fan-out notifies.
use sd_practice_qr_code_gene.Base.{
  ℕ, ◌+◌, Bool, true, false, none, some, List, [], ◌∷◌, ◌≡◌, map, All, Has, Once, if◌then◌else◌,
  ◌&&◌, refl, arith, sym, ◌∙◌, ap, inl, inr, if_pos, if_neg, Bool-cases,
}
use sd_practice_qr_code_gene.Notify.{Notification, pending, compute_key}
use sd_practice_qr_code_gene.Base.Dict
use sd_practice_qr_code_gene.Base.Text.{Text, text_dec}
use sd_practice_qr_code_gene.Notify.Store.{NotificationStore, contains, add_id, get_existing_keys}
use sd_practice_qr_code_gene.Notify.Registry.{Config}
use sd_practice_qr_code_gene.Notify.Routes.{World, new_notification}
use sd_practice_qr_code_gene.Notify.Routes.Fanout.{
  FanoutRequest, without, distinct, key_of_user, request_to, fresh_for, notifications_for,
}

-- Whether the store has a notification for a key.
pub is_known : NotificationStore → Text → Bool
is_known s k = elim (Dict.get s.by_key k) [ none ↦ false | some nid ↦ true ]

-- The users whose key the store does not have.
pub unknown : NotificationStore → (Text → Text) → List Text → List Text
unknown s key [] = []
unknown s key (u ∷ us) =
    let rest = unknown s key us in if is_known s (key u) then rest else u ∷ rest

without-only : (u x : Text) (vs : List Text) → Has x (without u vs) → Has x vs × (¬ (x ≡ u))
unfolding without
without-only u x [] h = elim h [ ]
without-only u x (v ∷ vs) h = elim (text_dec v u) [
  | yes same ↦
      let (listed, other) = without-only u x vs (rw (if_pos (text_dec v u) same) at h) in
      (inr listed, other)
  | no apart ↦ elim (rw (if_neg (text_dec v u) apart) at h) [
    | inl own ↦ (inl own, λ e. apart (sym own ∙ e))
    | inr later ↦ let (listed, other) = without-only u x vs later in (inr listed, other)
  ]
]

without-keeps : (u x : Text) (vs : List Text) → Has x vs → ¬ (x ≡ u) → Has x (without u vs)
unfolding without
without-keeps u x [] h other = h
without-keeps u x (v ∷ vs) h other = elim (text_dec v u) [
  | yes same ↦ rw (if_pos (text_dec v u) same) (elim h [
    | inl own ↦ absurd (other (own ∙ same))
    | inr later ↦ without-keeps u x vs later other
  ])
  | no apart ↦
      rw (if_neg (text_dec v u) apart)
        (elim h [ inl own ↦ inl own | inr later ↦ inr (without-keeps u x vs later other) ])
]

without-Once : (u : Text) (vs : List Text) → Once vs → Once (without u vs)
unfolding without
without-Once u [] h = tt
without-Once u (v ∷ vs) (here, rest) = elim (text_dec v u) [
  | yes same ↦ rw (if_pos (text_dec v u) same) (without-Once u vs rest)
  | no apart ↦
      rw (if_neg (text_dec v u) apart)
        ((λ h. here (without-only u v vs h).0), without-Once u vs rest)
]

pub distinct-Once : (us : List Text) → Once (distinct us)
unfolding distinct
distinct-Once [] = tt
distinct-Once (u ∷ us) = (
  (λ h. (without-only u u (distinct us) h).1 refl),
  without-Once u (distinct us) (distinct-Once us),
)

pub distinct-only : (x : Text) (us : List Text) → Has x (distinct us) → Has x us
unfolding distinct
distinct-only x [] h = h
distinct-only x (u ∷ us) (inl e) = inl e
distinct-only x (u ∷ us) (inr h) = inr (distinct-only x us (without-only u x (distinct us) h).0)

pub distinct-keeps : (x : Text) (us : List Text) → Has x us → Has x (distinct us)
unfolding distinct
distinct-keeps x [] h = h
distinct-keeps x (u ∷ us) (inl e) = inl e
distinct-keeps x (u ∷ us) (inr h) = elim (text_dec x u) [
  | yes same ↦ inl same
  | no apart ↦ inr (without-keeps u x (distinct us) (distinct-keeps x us h) apart)
]

module _ (s : NotificationStore) (key : Text → Text) where
  pub unknown-only :
      (x : Text) (us : List Text)
      → Has x (unknown s key us)
      → Has x us × (is_known s (key x) ≡ false)
  unfolding unknown
  unknown-only x [] h = elim h [ ]
  unknown-only x (u ∷ us) h = elim (Bool-cases (is_known s (key u))) [
    | inl there ↦
        let (listed, new) = unknown-only x us (rw (there, if◌then◌else◌) at h) in (inr listed, new)
    | inr new ↦ elim (rw (new, if◌then◌else◌) at h) [
      | inl own ↦ (inl own, ap (λ v. is_known s (key v)) own ∙ new)
      | inr later ↦ let (listed, own) = unknown-only x us later in (inr listed, own)
    ]
  ]

  pub unknown-keeps :
      (x : Text) (us : List Text) → Has x us → is_known s (key x) ≡ false → Has x (unknown s key us)
  unfolding unknown
  unknown-keeps x [] h new = h
  unknown-keeps x (u ∷ us) (inl own) new =
      rw (ap (λ v. is_known s (key v)) (sym own) ∙ new, if◌then◌else◌) (inl own)
  unknown-keeps x (u ∷ us) (inr h) new = elim (Bool-cases (is_known s (key u))) [
    | inl there ↦ rw (there, if◌then◌else◌) (unknown-keeps x us h new)
    | inr also ↦ rw (also, if◌then◌else◌) (inr (unknown-keeps x us h new))
  ]

  pub unknown-Once : (us : List Text) → Once us → Once (unknown s key us)
  unfolding unknown
  unknown-Once [] h = tt
  unknown-Once (u ∷ us) (here, rest) = elim (Bool-cases (is_known s (key u))) [
    | inl there ↦ rw (there, if◌then◌else◌) (unknown-Once us rest)
    | inr new ↦ rw (new, if◌then◌else◌) ((λ h. here (unknown-only u us h).0), unknown-Once us rest)
  ]

contains-add_id : (ids : List Text) (x k : Text) → contains (add_id ids x) k ≡ contains (x ∷ ids) k
unfolding contains add_id
contains-add_id ids x k = ground arith

contains-get_existing_keys :
    (s : NotificationStore) (ks : List Text) (k : Text)
    → contains (get_existing_keys s ks) k ≡ (contains ks k && is_known s k)
unfolding contains get_existing_keys is_known
contains-get_existing_keys s [] k = refl
contains-get_existing_keys s (j ∷ ks) k =
    ground (arith, contains-add_id (get_existing_keys s ks) j k, contains-get_existing_keys s ks k)

module _ (cfg : Config) (sha256 : Text → Text) (req : FanoutRequest) where
  fresh_for-unknown :
      (s : NotificationStore) (existing : List Text) (ids : ℕ → Text) (now i : ℕ) (us : List Text)
      → All
          (λ u.
            contains existing (key_of_user cfg sha256 req u)
            ≡ is_known s (key_of_user cfg sha256 req u))
          us
      → map (λ n. n.user_id) (fresh_for cfg sha256 req existing ids now i us)
        ≡ unknown s (key_of_user cfg sha256 req) us
  unfolding fresh_for unknown new_notification request_to
  fresh_for-unknown s existing ids now i [] h = refl
  fresh_for-unknown s existing ids now i (u ∷ us) (here, rest) = ground (
    arith,
    fresh_for-unknown s existing ids now i us rest,
    fresh_for-unknown s existing ids now (i + 1) us rest,
  )

  -- Notifications with the next ids, pending, with all that the request says of them.
  abbrev pub MadeFrom : (ℕ → Text) → ℕ → ℕ → List Notification → Type 0
  MadeFrom ids now i [] = Unit
  MadeFrom ids now i (n ∷ ns) =
      (n ≡ record {
        notification_id = ids i;
        user_id = n.user_id;
        channel = req.channel;
        message = req.message;
        topic = req.topic;
        idempotency_key = compute_key sha256 n.user_id req.topic req.message;
        status = pending;
        created_at = now;
        sent_at = none;
        error = none;
        attempts = 0;
      })
      × MadeFrom ids now (i + 1) ns

  pub fresh_for-MadeFrom :
      (existing : List Text) (ids : ℕ → Text) (now i : ℕ) (us : List Text)
      → MadeFrom ids now i (fresh_for cfg sha256 req existing ids now i us)
  unfolding fresh_for new_notification request_to
  fresh_for-MadeFrom existing ids now i [] = tt
  fresh_for-MadeFrom existing ids now i (u ∷ us) =
      elim (Bool-cases (contains existing (key_of_user cfg sha256 req u))) [
        | inl there ↦ rw (there, if◌then◌else◌) (fresh_for-MadeFrom existing ids now i us)
        | inr new ↦ rw (new, if◌then◌else◌) (refl, fresh_for-MadeFrom existing ids now (i + 1) us)
      ]

  -- Each key of a list is in the list.
  contains-map :
      (us vs : List Text)
      → ((k : Text)
          → contains (map (key_of_user cfg sha256 req) us) k ≡ true
          → contains (map (key_of_user cfg sha256 req) vs) k ≡ true)
      → All
          (λ u.
            contains (map (key_of_user cfg sha256 req) vs) (key_of_user cfg sha256 req u) ≡ true)
          us
  unfolding contains
  contains-map [] vs sub = tt
  contains-map (u ∷ us) vs sub = (
    sub (key_of_user cfg sha256 req u) (ground arith),
    contains-map us vs (λ k h. sub k (ground arith)),
  )

  All-known :
      (s : NotificationStore) (us : List Text) (ks : List Text)
      → All (λ u. contains ks (key_of_user cfg sha256 req u) ≡ true) us
      → All
          (λ u.
            contains (get_existing_keys s ks) (key_of_user cfg sha256 req u)
            ≡ is_known s (key_of_user cfg sha256 req u))
          us
  All-known s [] ks h = tt
  All-known s (u ∷ us) ks (here, rest) = (
    ground (arith, contains-get_existing_keys s ks (key_of_user cfg sha256 req u)),
    All-known s us ks rest,
  )

-- A fan-out makes a notification for each user of the request, taken once and in order, whose key
-- the store does not have yet, and for no other.
pub notifications_for-unknown :
    (cfg : Config) (sha256 : Text → Text) (req : FanoutRequest) (w : World) (ids : ℕ → Text)
    (now : ℕ)
    → map (λ n. n.user_id) (notifications_for cfg sha256 req w ids now)
      ≡ unknown w.store (key_of_user cfg sha256 req) (distinct req.user_ids)
unfolding notifications_for
notifications_for-unknown cfg sha256 req w ids now =
    let users = distinct req.user_ids in
    let keys = map (key_of_user cfg sha256 req) users in
    fresh_for-unknown cfg sha256 req w.store (get_existing_keys w.store keys) ids now 0 users (
      All-known cfg sha256 req w.store users keys
        (contains-map cfg sha256 req users users (λ k h. h)))
