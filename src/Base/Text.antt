-- ===== src/Base/Text.antt =====
-- Python's `str` as the list of its code points.
use Prim.Native.Char.{code}
use Prim.Native.Nat.{ℕ, ◌+◌}
use Prim.Native.String.{String}
use mathlib.Core.List.{List, [], ◌∷◌}
use mathlib.Core.Path.{◌≡◌, refl, ap₂}
use mathlib.Core.Bool.{Bool, true, false, ◌&&◌, ◌||◌}
use mathlib.Core.Logic.{ite, ◌⊎◌}
use mathlib.Core.List.{map}
use sd_practice_qr_code_gene.Base.Tests.{leb, if◌then◌else◌}
use native.Mathlib.Decide.{ℕ_discrete}
use native.Mathlib.Omega.{arith}

abbrev pub Text : Type 0
Text = List ℕ

-- A literal.
abbrev pub codes : String → Text
codes String.[] = []
codes (String.◌∷◌ c s) = code c ∷ codes s

join : {x y : ℕ} {s t : Text} → Dec (x ≡ y) → Dec (s ≡ t) → Dec (x ∷ s ≡ y ∷ t)
join (yes p) (yes q) = yes (ap₂ ◌∷◌ p q)
join (yes p) (no q) = no (λ e. q (ground arith))
join (no p) q = no (λ e. p (ground arith))

nil-ne-cons : {x : ℕ} {s : Text} → ¬ ([] ≡ x ∷ s)
nil-ne-cons e = ground arith

cons-ne-nil : {x : ℕ} {s : Text} → ¬ (x ∷ s ≡ [])
cons-ne-nil e = ground arith

-- `a == b`
unfoldable pub text_dec : Discrete Text
unfolding join nil-ne-cons cons-ne-nil ℕ_discrete
text_dec [] [] = yes refl
text_dec [] (y ∷ t) = no nil-ne-cons
text_dec (x ∷ s) [] = no cons-ne-nil
text_dec (x ∷ s) (y ∷ t) = join (ℕ_discrete x y) (text_dec s t)

unfoldable pub lower_char : ℕ → ℕ
lower_char c = if leb 65 c && leb c 90 then c + 32 else c

-- `s.lower()`
unfoldable pub lower : Text → Text
lower = map lower_char

-- `x in (...)`
unfoldable pub is_in : Text → List Text → Bool
is_in x [] = false
is_in x (y ∷ ys) = ite (text_dec x y) true false || is_in x ys

-- `x in xs`
abbrev pub In : Text → List Text → Type 0
In x [] = ⊥
In x (y ∷ ys) = (x ≡ y) ⊎ In x ys
