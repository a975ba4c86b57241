-- ===== src/Ring/Bisect.antt =====
-- Sorted positions: what `insort` keeps, and which position a look-up finds.
use mathlib.Core.List.{head?}
use sd_practice_qr_code_gene.Base.{
  ℕ, zero, suc, ◌%◌, ◌<◌, ◌≤◌, Option, none, some, List, [], ◌∷◌, ◌≡◌, ◌≢◌, ◌⊎◌, inl, inr, leb,
  if◌then◌else◌, length, get_elem?, arith, refl, All, Bool-cases, Option-cases, dec_lt, sym, ◌∙◌,
}
use native.Mathlib.Nat.{mod-eq_of_lt, mod_self}
use sd_practice_qr_code_gene.Ring.{bisect_right, insert_at, insort}

abbrev pub IsSorted : List ℕ → Type 0
IsSorted [] = Unit
IsSorted (x ∷ xs) = All (λ y. x ≤ y) xs × IsSorted xs

-- `insort` as a recursion.
pub insort-cons :
    (x y : ℕ) (ys : List ℕ) → insort (y ∷ ys) x ≡ (if leb y x then y ∷ insort ys x else x ∷ y ∷ ys)
unfolding insort bisect_right insert_at
insort-cons x y ys = elim (Bool-cases (leb y x)) [ inl h ↦ rw h | inr h ↦ rw h ]

pub insort-nil : (x : ℕ) → insort [] x ≡ x ∷ []
unfolding insort bisect_right insert_at
insort-nil x = refl

All-insort : (z x : ℕ) (ys : List ℕ) → z ≤ x → All (λ y. z ≤ y) ys → All (λ y. z ≤ y) (insort ys x)
All-insort z x [] h a = rw (insort-nil x) (h, tt)
All-insort z x (y ∷ ys) h a = rw (insort-cons x y ys) (ground (arith, All-insort z x ys h a.1))

All-le_trans : (z x : ℕ) (ys : List ℕ) → z ≤ x → All (λ y. x ≤ y) ys → All (λ y. z ≤ y) ys
All-le_trans z x [] h a = tt
All-le_trans z x (y ∷ ys) h a = (omega arith, All-le_trans z x ys h a.1)

pub insort-IsSorted : (x : ℕ) (ys : List ℕ) → IsSorted ys → IsSorted (insort ys x)
insort-IsSorted x [] s = rw (insort-nil x) (tt, tt)
insort-IsSorted x (y ∷ ys) (a, s) = elim (Bool-cases (leb y x)) [
  | inl h ↦ rw (insort-cons x y ys, h) (All-insort y x ys (ground arith) a, insort-IsSorted x ys s)
  | inr h ↦
      rw (insort-cons x y ys, h) ((ground arith, All-le_trans x y ys (ground arith) a), (a, s))
]

-- The first position above `h`.
unfoldable pub first_above : ℕ → List ℕ → Option ℕ
first_above h [] = none
first_above h (x ∷ xs) = if leb x h then first_above h xs else some x

-- Clockwise from `h`: the first position above it, or else the first of all.
unfoldable pub successor : ℕ → List ℕ → Option ℕ
unfolding first_above
successor h xs = elim (first_above h xs) [ some x ↦ some x | none ↦ head? xs ]

pub successor-cons : (h x : ℕ) (xs : List ℕ) → successor h (x ∷ xs) ≢ none
unfolding successor
successor-cons h x xs e = ground arith

get_elem?-bisect : (h : ℕ) (xs : List ℕ) → get_elem? xs (bisect_right xs h) ≡ first_above h xs
unfolding bisect_right first_above
get_elem?-bisect h [] = refl
get_elem?-bisect h (x ∷ xs) = ground (arith, get_elem?-bisect h xs)

bisect-le-length : (h : ℕ) (xs : List ℕ) → bisect_right xs h ≤ length xs
unfolding bisect_right
bisect-le-length h [] = omega arith
bisect-le-length h (x ∷ xs) = ground (arith, bisect-le-length h xs)

get_elem?-length {ℓ} : {A : Type ℓ} (xs : List A) (i : ℕ) → i < length xs → get_elem? xs i ≢ none
get_elem?-length [] i h e = absurd (omega arith)
get_elem?-length (x ∷ xs) zero h e = cc
get_elem?-length (x ∷ xs) (suc i) h e = get_elem?-length xs i (omega arith) e

get_elem?-end {ℓ} : {A : Type ℓ} (xs : List A) → get_elem? xs (length xs) ≡ none
get_elem?-end [] = refl
get_elem?-end (x ∷ xs) = get_elem?-end xs

-- The index that `get_node` computes finds the clockwise successor.
pub get_elem?-successor :
    (h : ℕ) (x : ℕ) (xs : List ℕ)
    → get_elem? (x ∷ xs) (bisect_right (x ∷ xs) h % length (x ∷ xs)) ≡ successor h (x ∷ xs)
unfolding successor
get_elem?-successor h x xs = elim (dec_lt (bisect_right all h) (length all)) [
  | yes inside ↦
      rw (mod-eq_of_lt inside)
        (ground (arith, get_elem?-bisect h all, get_elem?-length all (bisect_right all h) inside))
  | no past ↦
      let e : bisect_right all h ≡ length all = omega (arith, bisect-le-length h all) in
      let z : length all % length all ≡ 0 = mod_self (length all) in
      let none_above : first_above h all ≡ none =
        sym (get_elem?-bisect h all) ∙ rw e (get_elem?-end all) in
      rw (e, z, none_above, successor)
]
  where
    all : List ℕ
    all = x ∷ xs

first_above-insort :
    (h x : ℕ) (ys : List ℕ)
    → (first_above h (insort ys x) ≡ some x) ⊎ (first_above h (insort ys x) ≡ first_above h ys)
unfolding first_above
first_above-insort h x [] = rw (insort-nil x) (ground arith)
first_above-insort h x (y ∷ ys) = rw (insort-cons x y ys) (elim (Bool-cases (leb y x)) [
  | inl before ↦ rw before (elim (Bool-cases (leb y h)) [
    | inl low ↦ rw low (first_above-insort h x ys)
    | inr high ↦ inr (rw high)
  ])
  | inr after ↦
      rw after (elim (Bool-cases (leb x h)) [ inl low ↦ inr (rw low) | inr high ↦ inl (rw high) ])
])

head-insort :
    (x : ℕ) (ys : List ℕ) → (head? (insort ys x) ≡ some x) ⊎ (head? (insort ys x) ≡ head? ys)
head-insort x [] = rw (insort-nil x) (inl refl)
head-insort x (y ∷ ys) = rw (insort-cons x y ys) (elim (Bool-cases (leb y x)) [
  | inl before ↦ rw before (inr refl)
  | inr after ↦ rw after (inl refl)
])

-- One more position: the successor is the new position, or the one that it was.
pub successor-insort :
    (h x : ℕ) (ys : List ℕ)
    → (successor h (insort ys x) ≡ some x) ⊎ (successor h (insort ys x) ≡ successor h ys)
unfolding successor
successor-insort h x ys = elim (first_above-insort h x ys) [
  | inl new ↦ inl (rw (new, successor))
  | inr same ↦ elim (Option-cases (first_above h ys)) [
    | inr (y, e) ↦ inr (rw (same, e, successor))
    | inl e ↦ elim (head-insort x ys) [
      | inl new ↦ inl (rw (same, e, successor) new)
      | inr old ↦ inr (rw (same, e, successor) old)
    ]
  ]
]
