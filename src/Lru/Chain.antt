-- ===== src/Lru/Chain.antt =====
-- Lists of references, and which reference stands next to which.
pub mod Changes
pub mod Inner
use sd_practice_qr_code_gene.Base.{
  ℕ, Bool, true, false, Option, none, some, List, [], ◌∷◌, ◌≡◌, ◌==◌, if◌then◌else◌, arith, refl,
}

abbrev pub first : List ℕ → Option ℕ
first [] = none
first (x ∷ l) = some x

-- What stands after `y`, and before it.
unfoldable pub next_of : List ℕ → ℕ → Option ℕ
next_of [] y = none
next_of (x ∷ l) y = if x == y then first l else next_of l y

abbrev pub is_at : Option ℕ → ℕ → Bool
is_at none y = false
is_at (some x) y = x == y

unfoldable pub prev_of : List ℕ → ℕ → Option ℕ
prev_of [] y = none
prev_of (x ∷ l) y = if is_at (first l) y then some x else prev_of l y

unfoldable pub has : List ℕ → ℕ → Bool
has [] y = false
has (x ∷ l) y = if x == y then true else has l y

abbrev pub Distinct : List ℕ → Type 0
Distinct [] = Unit
Distinct (x ∷ l) = (has l x ≡ false) × Distinct l

unfoldable pub erase : ℕ → List ℕ → List ℕ
erase n [] = []
erase n (x ∷ l) = if x == n then l else x ∷ erase n l

pub next_of-has :
    (l : List ℕ) (y n : ℕ) → next_of l y ≡ some n → (has l y ≡ true) × (has l n ≡ true)
unfolding next_of has
next_of-has [] y n e = absurd (cc)
next_of-has (x ∷ []) y n e = absurd (ground arith)
next_of-has (x ∷ z ∷ l) y n e = ground (arith, next_of-has (z ∷ l) y n)

pub prev_of-has :
    (l : List ℕ) (n y : ℕ) → prev_of l n ≡ some y → (has l y ≡ true) × (has l n ≡ true)
unfolding prev_of has
prev_of-has [] n y e = absurd (cc)
prev_of-has (x ∷ []) n y e = absurd (ground arith)
prev_of-has (x ∷ z ∷ l) n y e = ground (arith, prev_of-has (z ∷ l) n y)

pub prev_of_tail : (x : ℕ) (l : List ℕ) (n y : ℕ) → prev_of (x ∷ l) n ≡ some y → has l n ≡ true
unfolding prev_of has
prev_of_tail x [] n y e = absurd (ground arith)
prev_of_tail x (z ∷ l) n y e = ground (arith, prev_of-has (z ∷ l) n y)

-- The two agree.
pub next_of-prev_of :
    (l : List ℕ) (n y : ℕ) → Distinct l → prev_of l n ≡ some y → next_of l y ≡ some n
unfolding next_of prev_of has
next_of-prev_of [] n y d e = absurd (cc)
next_of-prev_of (x ∷ []) n y d e = absurd (ground arith)
next_of-prev_of (x ∷ z ∷ l) n y (new, d) e =
    ground (arith, next_of-prev_of (z ∷ l) n y d, prev_of-has (z ∷ l) n y)

pub prev_of-next_of :
    (l : List ℕ) (n y : ℕ) → Distinct l → next_of l y ≡ some n → prev_of l n ≡ some y
unfolding next_of prev_of has
prev_of-next_of [] n y d e = absurd (cc)
prev_of-next_of (x ∷ []) n y d e = absurd (ground arith)
prev_of-next_of (x ∷ z ∷ l) n y (new, d) e =
    ground (arith, prev_of-next_of (z ∷ l) n y d, prev_of_tail z l n y)

pub next_of_absent : (l : List ℕ) (y : ℕ) → has l y ≡ false → next_of l y ≡ none
unfolding next_of has
next_of_absent [] y h = refl
next_of_absent (x ∷ l) y h = ground (arith, next_of_absent l y)

pub prev_of_absent : (l : List ℕ) (y : ℕ) → has l y ≡ false → prev_of l y ≡ none
unfolding prev_of has
prev_of_absent [] y h = refl
prev_of_absent (x ∷ []) y h = ground arith
prev_of_absent (x ∷ z ∷ l) y h = ground (arith, prev_of_absent (z ∷ l) y)
