-- ===== src/Notify/RedisStore/Tests.antt =====
-- Runs of the theorems of the store on Redis, on functions of the keys, with times in decimal.
use sd_practice_qr_code_gene.Base.{
  ℕ, Option, none, some, [], ◌∷◌, ◌≡◌, ◌==◌, if◌then◌else◌, ite, refl, arith, ◌∙◌, if_pos, if_neg,
  List, Has, Once, ◌⊎◌, inl, inr, sym,
}
use mathlib.Core.Path.{subst}
use sd_practice_qr_code_gene.Base.Decimal.{decimal, parse_int, parse_int-decimal}
use sd_practice_qr_code_gene.Base.Text.{Text, codes, text_dec}
use sd_practice_qr_code_gene.Notify.{
  Notification, pending, failed, DeliveryError, no_error, timed_out, circuit_open, channel_error,
}
use sd_practice_qr_code_gene.Notify.Store.Users.{add_id-Has, add_id-keeps, add_id-only, add_id-Once}
use sd_practice_qr_code_gene.Notify.Store
use sd_practice_qr_code_gene.Notify.Store.{NotificationStore, add_id}
use sd_practice_qr_code_gene.Notify.Store.Laws.{get-save, by_key-save}
use sd_practice_qr_code_gene.Notify.RedisStore.{
  Redis, Key, key_dec, save, save_status, get, get_by_key, get_existing_keys,
}
use sd_practice_qr_code_gene.Notify.RedisStore.Hashes.{Hash, Formats, merge}
use sd_practice_qr_code_gene.Notify.RedisStore.Commands.{SameJob}
use sd_practice_qr_code_gene.Notify.RedisStore.Writes.{
  Writes, none_yet, saved, status_saved, Writes-same, get-save_status,
}

pub record Keys : Type 0 where
  pub hashes : Key → Option Hash
  pub values : Key → Option Text
  pub members : Key → List Text

abbrev pub with_member : Keys → Key → Text → Key → List Text
with_member s k v j = ite (key_dec k j) (add_id (s.members k) v) (s.members j)

pub adds_keep :
    (s : Keys) (k j : Key) (v x : Text) → Has x (s.members j) → Has x (with_member s k v j)
adds_keep s k j v x h = elim (key_dec k j) [
  | yes p ↦
      subst (Has x) (sym (if_pos (key_dec k j) p _ _))
        (add_id-keeps (s.members k) v x (subst (λ i. Has x (s.members i)) (sym p) h))
  | no p ↦ subst (Has x) (sym (if_neg (key_dec k j) p _ _)) h
]

pub adds_only :
    (s : Keys) (k j : Key) (v x : Text)
    → Has x (with_member s k v j)
    → Has x (s.members j) ⊎ ((k ≡ j) × (x ≡ v))
adds_only s k j v x h = elim (key_dec k j) [
  | yes p ↦ elim (add_id-only (s.members k) v x (subst (Has x) (if_pos (key_dec k j) p _ _) h)) [
    | inr e ↦ inr (p, e)
    | inl old ↦ inl (subst (λ i. Has x (s.members i)) p old)
  ]
  | no p ↦ inl (subst (Has x) (if_neg (key_dec k j) p _ _) h)
]

pub adds-Once : (s : Keys) (k j : Key) (v : Text) → Once (s.members j) → Once (with_member s k v j)
adds-Once s k j v h = elim (key_dec k j) [
  | yes p ↦
      subst Once (sym (if_pos (key_dec k j) p _ _))
        (add_id-Once (s.members k) v (subst (λ i. Once (s.members i)) (sym p) h))
  | no p ↦ subst Once (sym (if_neg (key_dec k j) p _ _)) h
]

abbrev pub test_redis : Redis
test_redis = record {
  State = Keys;
  hgetall = λ s k. s.hashes k;
  hset = λ s k m. record s {
    hashes = λ j. ite (key_dec k j) (some (merge m (s.hashes k))) (s.hashes j);
  };
  expire = λ s k t. s;
  get = λ s k. s.values k;
  set_ex = λ s k v t. record s { values = λ j. ite (key_dec k j) (some v) (s.values j) };
  zadd = λ s k v score. record s {
    members = λ j. ite (key_dec k j) (add_id (s.members k) v) (s.members j);
  };
  zrange = λ s k. s.members k;
  hgetall-hset = λ s k j m. refl;
  hgetall-expire = λ s k j t h. refl;
  hgetall-set_ex = λ s k nid v t. refl;
  hgetall-zadd = λ s u nid v score. refl;
  get-hset = λ s nid k m. refl;
  get-expire = λ s k j t h. refl;
  get-set_ex = λ s k j v t h. refl;
  get-zadd = λ s u k v score. refl;
  zadd_new = λ s k v score.
      subst (Has v) (sym (if_pos (key_dec k k) refl _ _)) (add_id-Has (s.members k) v);
  zadd_keeps = λ s k j v x score h. adds_keep s k j v x h;
  zadd_only = λ s k j v x score h. adds_only s k j v x h;
  zadd_once = λ s k j v score h. adds-Once s k j v h;
  zrange-hset = λ s nid u m. refl;
  zrange-expire = λ s k j t h. refl;
  zrange-set_ex = λ s k u v t. refl;
}

abbrev pub read_time : Text → Option ℕ
read_time [] = none
read_time (c ∷ s) = parse_int s

abbrev pub test_error_text : DeliveryError → Text
test_error_text no_error = []
test_error_text timed_out = codes "timed out"
test_error_text circuit_open = codes "open"
test_error_text channel_error = codes "refused"

abbrev pub test_error_of : Text → DeliveryError
test_error_of [] = no_error
test_error_of (c ∷ s) =
    if c == 116 then timed_out else if c == 111 then circuit_open else channel_error

pub read_error : (e : DeliveryError) → test_error_of (test_error_text e) ≡ e
read_error no_error = refl
read_error timed_out = refl
read_error circuit_open = refl
read_error channel_error = refl

pub text_of_error : (e : DeliveryError) → ¬ (e ≡ no_error) → ¬ (test_error_text e ≡ [])
text_of_error no_error h p = h refl
text_of_error timed_out h p = ground arith
text_of_error circuit_open h p = ground arith
text_of_error channel_error h p = ground arith

abbrev pub test_formats : Formats
test_formats = record {
  isoformat = λ t. 84 ∷ decimal t;
  fromisoformat = read_time;
  error_text = test_error_text;
  error_of = test_error_of;
  fromisoformat-isoformat = parse_int-decimal;
  isoformat-IsText = λ t e. ground arith;
  error_of-error_text = read_error;
  error_text-IsText = text_of_error;
}

abbrev pub job : Notification
job = record {
  notification_id = codes "n1";
  user_id = codes "u";
  channel = codes "email";
  message = codes "hi";
  topic = codes "t";
  idempotency_key = codes "k";
  status = pending;
  created_at = 12;
  sent_at = none;
  error = none;
  attempts = 0;
}

abbrev pub given_up : Notification
given_up = record job { status = failed; error = some timed_out; attempts = 3 }

abbrev pub empty_keys : Keys
empty_keys = record { hashes = λ k. none; values = λ k. none; members = λ k. [] }

abbrev pub one_job : Keys
one_job = save test_redis test_formats 60 empty_keys job

abbrev pub memory : NotificationStore
memory = Store.save Store.init job

abbrev given_up_same : SameJob job given_up
given_up_same = record {
  notification_id = refl;
  user_id = refl;
  channel = refl;
  message = refl;
  topic = refl;
  idempotency_key = refl;
  created_at = refl;
}

pub one-Writes : Writes test_redis test_formats 60 one_job memory
one-Writes =
    saved empty_keys Store.init job (none_yet empty_keys (λ k. refl) (λ k. refl) (λ k. refl))
      (λ e. ground arith)

pub two-Writes :
    Writes test_redis test_formats 60
      (save_status test_redis test_formats one_job given_up)
      (Store.save_status memory given_up)
two-Writes =
    status_saved one_job memory job given_up one-Writes
      (get-save Store.init job (codes "n1") ∙ if_pos (text_dec (codes "n1") (codes "n1")) refl _ _)
      given_up_same
      (by_key-save Store.init job (codes "k") ∙ if_pos (text_dec (codes "k") (codes "k")) refl _ _)
      (λ e. ground arith)

Writes-same_example :
    let r = save_status test_redis test_formats one_job given_up in
    let s = Store.save_status memory given_up in
    (get test_redis test_formats r (codes "n1") ≡ some (Store.get s (codes "n1")))
    × (get_by_key test_redis test_formats r (codes "k") ≡ some (Store.get_by_key s (codes "k")))
    × (get_existing_keys test_redis test_formats r (codes "k" ∷ codes "j" ∷ [])
        ≡ Store.get_existing_keys s (codes "k" ∷ codes "j" ∷ []))
Writes-same_example =
    Writes-same test_redis test_formats 60 (save_status test_redis test_formats one_job given_up)
      (Store.save_status memory given_up) two-Writes (codes "n1") (codes "k")
      (codes "k" ∷ codes "j" ∷ [])

get-save_status_example :
    get test_redis test_formats
      (save_status test_redis test_formats empty_keys given_up)
      (codes "n1")
    ≡ none
get-save_status_example = get-save_status test_redis test_formats 60 empty_keys given_up refl
