-- ===== src/Lru/Dict.antt =====
-- The `dict` of the cache, from a key to a reference.
use sd_practice_qr_code_gene.Base.{
  ℕ, ◌+◌, none, some, List, [], ◌∷◌, ◌≡◌, ite, arith, refl, length, if_pos, if_neg,
}
use sd_practice_qr_code_gene.Base.Text.{Text, text_dec}
use sd_practice_qr_code_gene.Lru.{lookup, without}

-- Each key has one pair.
abbrev pub IsDict : List (Text × ℕ) → Type 0
IsDict [] = Unit
IsDict ((j, r) ∷ m) = (lookup j m ≡ none) × IsDict m

pub lookup-without :
    (k j : Text) (m : List (Text × ℕ))
    → lookup j (without k m) ≡ ite (text_dec k j) none (lookup j m)
unfolding lookup without
lookup-without k j [] = ground arith
lookup-without k j ((i, r) ∷ m) = ground (arith, lookup-without k j m)

pub without-IsDict : (k : Text) (m : List (Text × ℕ)) → IsDict m → IsDict (without k m)
unfolding without
without-IsDict k [] d = tt
without-IsDict k ((i, r) ∷ m) (new, d) = elim (text_dec i k) [
  | yes e ↦ rw (if_pos (text_dec i k) e (without k m) ((i, r) ∷ without k m)) (without-IsDict k m d)
  | no ne ↦
      rw (if_neg (text_dec i k) ne (without k m) ((i, r) ∷ without k m))
        (ground (arith, lookup-without k i m), without-IsDict k m d)
]

without_absent : (k : Text) (m : List (Text × ℕ)) → lookup k m ≡ none → without k m ≡ m
unfolding lookup without
without_absent k [] e = refl
without_absent k ((i, r) ∷ m) e = ground (arith, without_absent k m)

pub length-without :
    (k : Text) (r : ℕ) (m : List (Text × ℕ))
    → IsDict m
    → lookup k m ≡ some r
    → length (without k m) + 1 ≡ length m
unfolding lookup without
length-without k r [] d e = absurd (cc)
length-without k r ((i, q) ∷ m) (new, d) e = elim (text_dec i k) [
  | yes same ↦ ground (arith, without_absent i m)
  | no other ↦ ground (arith, length-without k r m d)
]
