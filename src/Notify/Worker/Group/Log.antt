-- ===== src/Notify/Worker/Group/Log.antt =====
-- The streams and the dead-letter queue as lists, an instance of the interface of queue.py: a message
-- is its place on its stream.
use sd_practice_qr_code_gene.Base.{
  ℕ, zero, suc, ◌≤◌, ◌<◌, Bool, false, Option, none, some, List, [], ◌∷◌, ◌++◌, ◌≡◌, inl, inr, refl,
  arith, sym, ◌∙◌, ap, Option-cases, length, length-append, get_elem?, All,
}
use mathlib.Core.List.{append_assoc}
use mathlib.Core.Option.{none-ne-some}
use mathlib.Core.Path.{subst}
use sd_practice_qr_code_gene.Base.Text.{Text}
use sd_practice_qr_code_gene.Notify.Queue
use sd_practice_qr_code_gene.Notify.Queue.{
  Stream, critical_stream, delivery_stream, stream_of, enqueue,
}
use sd_practice_qr_code_gene.Notify.Worker.{Message}
use sd_practice_qr_code_gene.Notify.Worker.Group.{Keeps}

-- `seen` are the messages that the group has been given.
pub record Log : Type 0 where
  pub seen : Stream → List Text
  pub fresh : Stream → List Text
  pub acked : Stream → ℕ → Bool
  pub dead : List Text

abbrev pub bodies : Log → Stream → List Text
bodies s k = s.seen k ++ s.fresh k

abbrev pub update : {A : Type 0} → Stream → A → (Stream → A) → Stream → A
update critical_stream a f critical_stream = a
update critical_stream a f delivery_stream = f delivery_stream
update delivery_stream a f critical_stream = f critical_stream
update delivery_stream a f delivery_stream = a

pub update_self : {A : Type 0} (k : Stream) (a : A) (f : Stream → A) → update k a f k ≡ a
update_self critical_stream a f = refl
update_self delivery_stream a f = refl

abbrev pub add : Log → Stream → Text → Log
add s k nid = record s { fresh = update k (s.fresh k ++ nid ∷ []) s.fresh }

abbrev pub pop : Log → List Text → Log × Option Text
pop s [] = (s, none)
pop s (nid ∷ nids) = (record s { dead = nids }, some nid)

pub bodies-pop : (s : Log) (nids : List Text) (k : Stream) → bodies (pop s nids).0 k ≡ bodies s k
bodies-pop s [] k = refl
bodies-pop s (nid ∷ nids) k = refl

pub bodies-add :
    (s : Log) (k : Stream) (nid : Text) → bodies (add s k nid) k ≡ bodies s k ++ nid ∷ []
bodies-add s k nid =
    ap (λ l. s.seen k ++ l) (update_self k _ s.fresh)
    ∙ sym (append_assoc (s.seen k) (s.fresh k) (nid ∷ []))

abbrev pub as_body : Option Text → Option (Option Text)
as_body none = none
as_body (some nid) = some (some nid)

abbrev pub body_at : Log → Stream → ℕ → Option (Option Text)
body_at s k i = as_body (get_elem? (bodies s k) i)

abbrev pub log_queue : Queue.Redis
log_queue = record {
  State = Log;
  stream = bodies;
  dead = λ s. s.dead;
  xadd = add;
  rpush = λ s nid. record s { dead = s.dead ++ nid ∷ [] };
  lpop = λ s. pop s s.dead;
  stream-xadd = bodies-add;
  dead-xadd = λ s k nid. refl;
  dead-rpush = λ s nid. refl;
  stream-lpop = λ s k. bodies-pop s s.dead k;
  lpop_empty = λ s e. rw e (refl, refl);
  lpop_first = λ s nid nids e. rw e (refl, refl);
}

abbrev pub IsGiven : Log → Stream → ℕ → Type 0
IsGiven s k i = (i < length (s.seen k)) × (s.acked k i ≡ false)

abbrev pub IsNew : Log → Stream → ℕ → Type 0
IsNew s k i = (length (s.seen k) ≤ i) × (i < length (bodies s k))

-- The message at a place.
abbrev pub message_at : ℕ → Option Text → List (Message ℕ)
message_at i none = []
message_at i (some nid) = (i, some nid) ∷ []

pub message_at-own :
    (s : Log) (k : Stream) (i : ℕ) (o : Option Text)
    → get_elem? (bodies s k) i ≡ o
    → All (λ m. body_at s k m.0 ≡ some m.1) (message_at i o)
message_at-own s k i none e = tt
message_at-own s k i (some nid) e = (ap as_body e, tt)

pub get_elem?-append :
    (xs ys : List Text) (i : ℕ) (x : Text)
    → get_elem? xs i ≡ some x
    → get_elem? (xs ++ ys) i ≡ some x
get_elem?-append [] ys i x e = absurd (none-ne-some x e)
get_elem?-append (y ∷ xs) ys zero x e = e
get_elem?-append (y ∷ xs) ys (suc i) x e = get_elem?-append xs ys i x e

pub get_elem?-next : (xs ys : List Text) (x : Text) → get_elem? (xs ++ x ∷ ys) (length xs) ≡ some x
get_elem?-next [] ys x = refl
get_elem?-next (y ∷ xs) ys x = get_elem?-next xs ys x

pub body_at-append :
    (xs ys : List Text) (i : ℕ) (body : Option Text)
    → as_body (get_elem? xs i) ≡ some body
    → as_body (get_elem? (xs ++ ys) i) ≡ some body
body_at-append xs ys i body e = elim (Option-cases (get_elem? xs i)) [
  | inl n ↦ absurd (none-ne-some body (sym (ap as_body n) ∙ e))
  | inr (x, h) ↦ ap as_body (get_elem?-append xs ys i x h) ∙ sym (ap as_body h) ∙ e
]

abbrev pub LogKeeps : Log → Log → Type 0
LogKeeps = Keeps body_at IsNew IsGiven

-- The messages of a stream after one more on a stream.
pub bodies-add_any :
    (P : List Text → Type 0) (s : Log) (k j : Stream) (nid : Text)
    → ((xs : List Text) → P xs → P (xs ++ nid ∷ []))
    → P (bodies s j)
    → P (bodies (add s k nid) j)
bodies-add_any P s critical_stream critical_stream nid h p =
    subst P (sym (bodies-add s critical_stream nid)) (h _ p)
bodies-add_any P s critical_stream delivery_stream nid h p = p
bodies-add_any P s delivery_stream critical_stream nid h p = p
bodies-add_any P s delivery_stream delivery_stream nid h p =
    subst P (sym (bodies-add s delivery_stream nid)) (h _ p)

pub add-Keeps : (s : Log) (k : Stream) (nid : Text) → LogKeeps s (add s k nid)
add-Keeps s k nid = record {
  entries = λ j i body e.
      bodies-add_any (λ xs. as_body (get_elem? xs i) ≡ some body) s k j nid
        (λ xs. body_at-append xs (nid ∷ []) i body) e;
  waiting = λ j i h. inl (
    h.0,
    bodies-add_any (λ xs. i < length xs) s k j nid
        (λ xs within. omega (arith, length-append xs (nid ∷ []))) h.1,
  );
  pending = λ j i h. h;
}

pub add-IsNew :
    (s : Log) (k : Stream) (nid : Text)
    → (i : ℕ) × IsNew (add s k nid) k i × (body_at (add s k nid) k i ≡ some (some nid))
add-IsNew s k nid =
    let size = length (bodies s k) in
    let same = bodies-add s k nid in
    (
      size,
      (
        omega (arith, length-append (s.seen k) (s.fresh k)),
        subst (λ xs. size < length xs) (sym same)
            (omega (arith, length-append (bodies s k) (nid ∷ []))),
      ),
      ap (λ xs. as_body (get_elem? xs size)) same ∙ ap as_body (get_elem?-next (bodies s k) [] nid),
    )
