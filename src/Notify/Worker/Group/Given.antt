-- ===== src/Notify/Worker/Group/Given.antt =====
-- The consumer group on these lists: reading, claiming and acknowledging.
use sd_practice_qr_code_gene.Base.{
  ℕ, ◌≤◌, ◌<◌, Bool, false, not, ◌&&◌, ◌||◌, Option, none, some, List, [], ◌∷◌, ◌++◌, ◌≡◌, ◌⊎◌, inl,
  inr, refl, arith, sym, ◌∙◌, ap, ◌==◌, ltb, if◌then◌else◌, Bool-cases, ℕ_discrete, length,
  length-append, get_elem?, All,
}
use mathlib.Core.List.{append_assoc}
use mathlib.Core.Path.{subst}
use sd_practice_qr_code_gene.Base.Text.{Text}
use sd_practice_qr_code_gene.Notify.Queue.{Stream, critical_stream, delivery_stream}
use sd_practice_qr_code_gene.Notify.Worker.{Message}
use sd_practice_qr_code_gene.Notify.Worker.Group.{Group}
use sd_practice_qr_code_gene.Notify.Worker.Group.Log.{
  Log, bodies, update, pop, as_body, body_at, log_queue, IsGiven, IsNew, message_at, message_at-own,
  get_elem?-next, LogKeeps, add-Keeps, add-IsNew,
}

-- One message, if there is one that the group has not been given.
abbrev pub give : Log → Stream → List Text → Log
give s k [] = s
give s k (nid ∷ rest) = record s {
  seen = update k (s.seen k ++ nid ∷ []) s.seen;
  fresh = update k rest s.fresh;
  acked = update k (λ i. not (i == length (s.seen k)) && s.acked k i) s.acked;
}

pub bodies-give :
    (s : Log) (k j : Stream) (l : List Text) → s.fresh k ≡ l → bodies (give s k l) j ≡ bodies s j
bodies-give s k j [] e = refl
bodies-give s critical_stream critical_stream (nid ∷ rest) e =
    append_assoc (s.seen critical_stream) (nid ∷ []) rest
    ∙ ap (λ l. s.seen critical_stream ++ l) (sym e)
bodies-give s critical_stream delivery_stream (nid ∷ rest) e = refl
bodies-give s delivery_stream critical_stream (nid ∷ rest) e = refl
bodies-give s delivery_stream delivery_stream (nid ∷ rest) e =
    append_assoc (s.seen delivery_stream) (nid ∷ []) rest
    ∙ ap (λ l. s.seen delivery_stream ++ l) (sym e)

-- On the stream that a message is given from.
pub given_first :
    (xs : List Text) (nid : Text) (i : ℕ) (acked : ℕ → Bool)
    → length xs ≤ i
    → (length (xs ++ nid ∷ []) ≤ i)
      ⊎ ((i < length (xs ++ nid ∷ [])) × ((not (i == length xs) && acked i) ≡ false))
given_first xs nid i acked low = elim (ℕ_discrete i (length xs)) [
  | yes same ↦ inr (omega (arith, length-append xs (nid ∷ [])), ground arith)
  | no other ↦ inl (omega (arith, length-append xs (nid ∷ [])))
]

pub given_still :
    (xs : List Text) (nid : Text) (i : ℕ) (acked : ℕ → Bool)
    → i < length xs
    → acked i ≡ false
    → (i < length (xs ++ nid ∷ [])) × ((not (i == length xs) && acked i) ≡ false)
given_still xs nid i acked low open_ = (omega (arith, length-append xs (nid ∷ [])), ground arith)

pub give-IsNew :
    (s : Log) (k j : Stream) (l : List Text) (i : ℕ)
    → length (s.seen j) ≤ i
    → (length ((give s k l).seen j) ≤ i) ⊎ IsGiven (give s k l) j i
give-IsNew s k j [] i h = inl h
give-IsNew s critical_stream critical_stream (nid ∷ rest) i h =
    given_first (s.seen critical_stream) nid i (s.acked critical_stream) h
give-IsNew s critical_stream delivery_stream (nid ∷ rest) i h = inl h
give-IsNew s delivery_stream critical_stream (nid ∷ rest) i h = inl h
give-IsNew s delivery_stream delivery_stream (nid ∷ rest) i h =
    given_first (s.seen delivery_stream) nid i (s.acked delivery_stream) h

pub give-IsGiven :
    (s : Log) (k j : Stream) (l : List Text) (i : ℕ) → IsGiven s j i → IsGiven (give s k l) j i
give-IsGiven s k j [] i h = h
give-IsGiven s critical_stream critical_stream (nid ∷ rest) i (low, open_) =
    given_still (s.seen critical_stream) nid i (s.acked critical_stream) low open_
give-IsGiven s critical_stream delivery_stream (nid ∷ rest) i h = h
give-IsGiven s delivery_stream critical_stream (nid ∷ rest) i h = h
give-IsGiven s delivery_stream delivery_stream (nid ∷ rest) i (low, open_) =
    given_still (s.seen delivery_stream) nid i (s.acked delivery_stream) low open_

pub give-Keeps : (s : Log) (k : Stream) → LogKeeps s (give s k (s.fresh k))
give-Keeps s k = record {
  entries =
      λ j i body e. ap (λ xs. as_body (get_elem? xs i)) (bodies-give s k j (s.fresh k) refl) ∙ e;
  waiting = λ j i (low, high). elim (give-IsNew s k j (s.fresh k) i low) [
    | inl still ↦
        inl (still, subst (λ xs. i < length xs) (sym (bodies-give s k j (s.fresh k) refl)) high)
    | inr given ↦ inr given
  ];
  pending = λ j i h. give-IsGiven s k j (s.fresh k) i h;
}

abbrev pub first_of : ℕ → List Text → List (Message ℕ)
first_of n [] = []
first_of n (nid ∷ rest) = (n, some nid) ∷ []

pub given-own :
    (s : Log) (k : Stream) (l : List Text)
    → s.fresh k ≡ l
    → All (λ m. body_at (give s k l) k m.0 ≡ some m.1) (first_of (length (s.seen k)) l)
given-own s k [] e = tt
given-own s k (nid ∷ rest) e = (
  ap (λ xs. as_body (get_elem? xs (length (s.seen k))))
        (bodies-give s k k (nid ∷ rest) e ∙ ap (λ l. s.seen k ++ l) e)
      ∙ ap as_body (get_elem?-next (s.seen k) rest nid),
  tt,
)

abbrev pub acknowledge_one : Log → Stream → ℕ → Log
acknowledge_one s j l = record s { acked = update j (λ i. i == l || s.acked j i) s.acked }

pub one_acked :
    (l i : ℕ) (acked : ℕ → Bool) → acked i ≡ false → ((i == l || acked i) ≡ false) ⊎ (l ≡ i)
one_acked l i acked open_ = elim (ℕ_discrete l i) [
  | yes same ↦ inr same
  | no other ↦ inl (ground arith)
]

pub acknowledge-IsGiven :
    (s : Log) (j k : Stream) (l i : ℕ)
    → IsGiven s k i
    → IsGiven (acknowledge_one s j l) k i ⊎ ((j ≡ k) × (l ≡ i))
acknowledge-IsGiven s critical_stream delivery_stream l i h = inl h
acknowledge-IsGiven s delivery_stream critical_stream l i h = inl h
acknowledge-IsGiven s critical_stream critical_stream l i (low, open_) =
    elim (one_acked l i (s.acked critical_stream) open_) [
      | inl still ↦ inl (low, still)
      | inr same ↦ inr (refl, same)
    ]
acknowledge-IsGiven s delivery_stream delivery_stream l i (low, open_) =
    elim (one_acked l i (s.acked delivery_stream) open_) [
      | inl still ↦ inl (low, still)
      | inr same ↦ inr (refl, same)
    ]

-- Any worker may claim the message at a place, if it is pending.
abbrev pub claimed : Log → Stream → ℕ → List (Message ℕ)
claimed s k i =
    if ltb i (length (s.seen k)) && not (s.acked k i)
    then message_at i (get_elem? (bodies s k) i)
    else []

abbrev pub cursor : Option ℕ → ℕ
cursor none = 0
cursor (some i) = i

pub claimed-own :
    (s : Log) (k : Stream) (i : ℕ) → All (λ m. body_at s k m.0 ≡ some m.1) (claimed s k i)
claimed-own s k i = elim (Bool-cases (ltb i (length (s.seen k)) && not (s.acked k i))) [
  | inl pending ↦ rw (pending, if◌then◌else◌) (message_at-own s k i (get_elem? (bodies s k) i) refl)
  | inr other ↦ rw (other, if◌then◌else◌) tt
]

pub pop-Keeps : (s : Log) (nids : List Text) → LogKeeps s (pop s nids).0
pop-Keeps s [] = record {
  entries = λ j i body e. e;
  waiting = λ j i h. inl h;
  pending = λ j i h. h;
}
pop-Keeps s (nid ∷ nids) = record {
  entries = λ j i body e. e;
  waiting = λ j i h. inl h;
  pending = λ j i h. h;
}

abbrev pub test_group : Group log_queue
test_group = record {
  MessageId = ℕ;
  entry = body_at;
  IsWaiting = IsNew;
  IsPending = IsGiven;
  xreadgroup = λ s k count. (give s k (s.fresh k), first_of (length (s.seen k)) (s.fresh k));
  xautoclaim = λ s k first count. (s, claimed s k (cursor first));
  xack = acknowledge_one;
  xadd_new = add-IsNew;
  xadd-Keeps = λ s k nid. add-Keeps s k nid;
  rpush-Keeps =
      λ s nid. record { entries = λ j i body e. e; waiting = λ j i h. inl h; pending = λ j i h. h };
  lpop-Keeps = λ s. pop-Keeps s s.dead;
  xreadgroup-Keeps = λ s k count. give-Keeps s k;
  xautoclaim-Keeps = λ s k first count. record {
    entries = λ j i body e. e;
    waiting = λ j i h. inl h;
    pending = λ j i h. h;
  };
  read_entries = λ s k count. given-own s k (s.fresh k) refl;
  claimed_entries = λ s k first count. claimed-own s k (cursor first);
  entry-xack = λ s j k l i. refl;
  waiting-xack = λ s j k l i h. h;
  pending-xack = acknowledge-IsGiven;
}
