-- ===== src/Lru/Chain/Changes.antt =====
-- The neighbours after an element is taken out of a list, or put in behind its first.
use sd_practice_qr_code_gene.Base.{
  ℕ, true, false, none, some, List, [], ◌∷◌, ◌≡◌, ◌≢◌, ◌==◌, if◌then◌else◌, arith, Bool-cases, inl,
  inr,
}
use sd_practice_qr_code_gene.Lru.Chain.{
  next_of, is_at, prev_of, has, Distinct, erase, next_of-has, prev_of-has, prev_of_tail,
  next_of_absent, prev_of_absent,
}

pub next_of-erase :
    (n : ℕ) (l : List ℕ) (y : ℕ)
    → Distinct l
    → next_of (erase n l) y
      ≡ (if y == n then none else if is_at (next_of l y) n then next_of l n else next_of l y)
unfolding next_of erase has
next_of-erase n [] y d = ground arith
next_of-erase n (x ∷ []) y d = ground arith
next_of-erase n (x ∷ z ∷ l) y (new, d) =
    ground (arith, next_of-erase n (z ∷ l) y d, next_of_absent (z ∷ l) n, next_of-has (z ∷ l) y n)

pub prev_of-erase :
    (n : ℕ) (l : List ℕ) (y : ℕ)
    → Distinct l
    → prev_of (erase n l) y
      ≡ (if y == n then none else if is_at (prev_of l y) n then prev_of l n else prev_of l y)
unfolding prev_of erase has
prev_of-erase n [] y d = ground arith
prev_of-erase n (x ∷ []) y d = ground arith
prev_of-erase n (x ∷ z ∷ []) y (new, d) = ground arith
prev_of-erase n (x ∷ z ∷ w ∷ l) y (new, d) = ground (
  arith,
  prev_of-erase n (z ∷ w ∷ l) y d,
  prev_of_absent (w ∷ l) n,
  prev_of_absent (w ∷ l) z,
  prev_of_tail w l y n,
  prev_of-has (w ∷ l) y n,
  prev_of-has (w ∷ l) y x,
)

-- Behind the first element.
pub next_of-insert :
    (n h : ℕ) (l : List ℕ) (y : ℕ)
    → h ≢ n
    → next_of (h ∷ n ∷ l) y
      ≡ (if y == h then some n else if y == n then next_of (h ∷ l) h else next_of (h ∷ l) y)
unfolding next_of
next_of-insert n h l y ne = ground arith

pub prev_of-insert :
    (n h : ℕ) (l : List ℕ) (y : ℕ)
    → Distinct (h ∷ l)
    → has l n ≡ false
    → h ≢ n
    → prev_of (h ∷ n ∷ l) y ≡ (
        if y == n
        then some h
        else if is_at (prev_of (h ∷ l) y) h
        then some n
        else prev_of (h ∷ l) y)
unfolding prev_of has
prev_of-insert n h l y (new, d) absent ne = ground (arith, prev_of-has l y h, prev_of_tail n l y)

pub has-erase :
    (n : ℕ) (l : List ℕ) (y : ℕ)
    → Distinct l
    → has (erase n l) y ≡ (if y == n then false else has l y)
unfolding erase has
has-erase n [] y d = ground arith
has-erase n (x ∷ l) y (new, d) = ground (arith, has-erase n l y d)

pub erase-Distinct : (n : ℕ) (l : List ℕ) → Distinct l → Distinct (erase n l)
unfolding erase has
erase-Distinct n [] d = tt
erase-Distinct n (x ∷ l) (new, d) = elim (Bool-cases (x == n)) [
  | inl same ↦ rw same d
  | inr other ↦ rw other (ground (arith, has-erase n l x d), erase-Distinct n l d)
]

pub has-insert :
    (h n : ℕ) (l : List ℕ) (y : ℕ) → has (h ∷ n ∷ l) y ≡ (if y == n then true else has (h ∷ l) y)
unfolding has
has-insert h n l y = ground arith

pub insert-Distinct :
    (h n : ℕ) (l : List ℕ) → Distinct (h ∷ l) → has (h ∷ l) n ≡ false → Distinct (h ∷ n ∷ l)
unfolding has
insert-Distinct h n l (new, d) absent = (ground arith, (ground arith, d))

pub next_of_head : (h f : ℕ) (l : List ℕ) → next_of (h ∷ f ∷ l) h ≡ some f
unfolding next_of
next_of_head h f l = ground arith

pub has_head : (h : ℕ) (l : List ℕ) → has (h ∷ l) h ≡ true
unfolding has
has_head h l = ground arith

pub has_tail : (h : ℕ) (l : List ℕ) (y : ℕ) → has (h ∷ l) y ≡ false → has l y ≡ false
unfolding has
has_tail h l y e = ground arith

-- Taken out and put in front, an element leaves the others where they were.
pub has_split :
    (n : ℕ) (l : List ℕ) → Distinct l → has l n ≡ true → (y : ℕ) → has (n ∷ erase n l) y ≡ has l y
unfolding has
has_split n l d inside y = ground (arith, has-erase n l y d)
