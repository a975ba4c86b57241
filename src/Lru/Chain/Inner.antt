-- ===== src/Lru/Chain/Inner.antt =====
-- The list between the two sentinels.
use sd_practice_qr_code_gene.Base.{
  ℕ, true, some, List, [], ◌∷◌, ◌++◌, ◌≡◌, ◌≢◌, ◌==◌, if◌then◌else◌, arith, refl, Bool-cases, inl,
  inr, length, ◌+◌,
}
use sd_practice_qr_code_gene.Lru.{head_ref, tail_ref}
use sd_practice_qr_code_gene.Lru.Chain.{next_of, prev_of, has, Distinct, erase}

abbrev pub full : List ℕ → List ℕ
full inner = head_ref ∷ (inner ++ tail_ref ∷ [])

has-append : (l : List ℕ) (z y : ℕ) → has (l ++ z ∷ []) y ≡ (if z == y then true else has l y)
unfolding has
has-append [] z y = refl
has-append (x ∷ l) z y = ground (arith, has-append l z y)

pub has-full :
    (inner : List ℕ) (y : ℕ)
    → has (full inner) y
      ≡ (if y == head_ref then true else if y == tail_ref then true else has inner y)
unfolding has
has-full inner y = ground (arith, has-append inner tail_ref y)

-- The sentinels are not inside.
pub inner_of_Distinct :
    (inner : List ℕ) (y : ℕ)
    → Distinct (full inner)
    → has inner y ≡ true
    → (y ≢ head_ref) × (y ≢ tail_ref)
unfolding has
inner_of_Distinct inner y (new, d) h =
    (ground (arith, has-append inner tail_ref head_ref), λ e. apart inner y d h e)
  where
    apart : (l : List ℕ) (y : ℕ) → Distinct (l ++ tail_ref ∷ []) → has l y ≡ true → y ≢ tail_ref
    apart [] y d h e = absurd (cc)
    apart (x ∷ l) y (new', d') h e = ground (arith, has-append l tail_ref x, apart l y d')

next_of-append :
    (l : List ℕ) (z y : ℕ) → has l y ≡ true → (q : ℕ) × (next_of (l ++ z ∷ []) y ≡ some q)
unfolding has next_of
next_of-append [] z y h = absurd (cc)
next_of-append (x ∷ []) z y h = (z, ground arith)
next_of-append (x ∷ w ∷ l) z y h = elim (Bool-cases (x == y)) [
  | inl here ↦ (w, rw here)
  | inr other ↦ let (q, e) = next_of-append (w ∷ l) z y (ground arith) in (q, rw other e)
]

prev_of_inside :
    (x : ℕ) (l : List ℕ) (y : ℕ) → has l y ≡ true → (p : ℕ) × (prev_of (x ∷ l) y ≡ some p)
unfolding has prev_of
prev_of_inside x [] y h = absurd (cc)
prev_of_inside x (w ∷ l) y h = elim (Bool-cases (w == y)) [
  | inl here ↦ (x, rw here)
  | inr other ↦ let (p, e) = prev_of_inside w l y (ground arith) in (p, rw other e)
]

-- An inner element has neighbours.
pub neighbours :
    (inner : List ℕ) (y : ℕ)
    → has inner y ≡ true
    → y ≢ head_ref
    → ((p : ℕ) × (prev_of (full inner) y ≡ some p)) × ((q : ℕ) × (next_of (full inner) y ≡ some q))
neighbours inner y h ne = (
  prev_of_inside head_ref (inner ++ tail_ref ∷ []) y (ground (arith, has-append inner tail_ref y)),
  (let (q, e) = next_of-append inner tail_ref y h in (q, unfold next_of in ground arith)),
)

pub erase-full :
    (n : ℕ) (inner : List ℕ)
    → n ≢ head_ref
    → n ≢ tail_ref
    → erase n (full inner) ≡ full (erase n inner)
unfolding erase
erase-full n inner h t = ground (arith, erase-append n inner t)
  where
    erase-append :
        (n : ℕ) (l : List ℕ)
        → n ≢ tail_ref
        → erase n (l ++ tail_ref ∷ []) ≡ erase n l ++ tail_ref ∷ []
    erase-append n [] t = ground arith
    erase-append n (x ∷ l) t = ground (arith, erase-append n l t)

unfoldable pub last_of : ℕ → List ℕ → ℕ
last_of x [] = x
last_of x (y ∷ l) = last_of y l

-- What stands before the end.
pub prev_of-tail_ref :
    (x : ℕ) (l : List ℕ)
    → Distinct (x ∷ (l ++ tail_ref ∷ []))
    → prev_of (x ∷ (l ++ tail_ref ∷ [])) tail_ref ≡ some (last_of x l)
unfolding prev_of last_of has
prev_of-tail_ref x [] d = refl
prev_of-tail_ref x (y ∷ l) (new, (new', d)) =
    ground (arith, has-append l tail_ref y, prev_of-tail_ref y l (new', d))

pub length-erase : (n : ℕ) (l : List ℕ) → has l n ≡ true → length (erase n l) + 1 ≡ length l
unfolding erase has
length-erase n [] h = absurd (cc)
length-erase n (x ∷ l) h = ground (arith, length-erase n l)

pub inner-Distinct : (inner : List ℕ) → Distinct (full inner) → Distinct inner
inner-Distinct inner (new, d) = front inner d
  where
    front : (l : List ℕ) → Distinct (l ++ tail_ref ∷ []) → Distinct l
    front [] d' = tt
    front (x ∷ l) (new', d') = (ground (arith, has-append l tail_ref x), front l d')

-- There is a first one behind the head.
pub full_cases : (inner : List ℕ) → (f : ℕ) × (rest : List ℕ) × (inner ++ tail_ref ∷ [] ≡ f ∷ rest)
full_cases [] = (tail_ref, [], refl)
full_cases (x ∷ l) = (x, l ++ tail_ref ∷ [], refl)
