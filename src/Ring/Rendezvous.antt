-- ===== src/Ring/Rendezvous.antt =====
-- The highest-random-weight strategy.
use sd_practice_qr_code_gene.Base.{
  ℕ, ◌≤◌, true, false, List, [], ◌∷◌, ◌++◌, ◌≡◌, ◌⊎◌, inl, inr, ltb, if◌then◌else◌, arith, refl,
  All, Bool-cases, ap, sym,
}
use mathlib.Core.Path.{subst}
use sd_practice_qr_code_gene.Base.Text.{In, Text, codes}
use sd_practice_qr_code_gene.Ring.{HashRing, ok, value_error, best, max_by, rendezvous_node}

module _ (score : Text → ℕ) where
  best-more :
      (x y : Text) (ys : List Text)
      → ltb (score x) (score y) ≡ true
      → best score x (y ∷ ys) ≡ best score y ys
  unfolding best
  best-more x y ys more = ap (λ b. best score (if b then y else x) ys) more

  best-less :
      (x y : Text) (ys : List Text)
      → ltb (score x) (score y) ≡ false
      → best score x (y ∷ ys) ≡ best score x ys
  unfolding best
  best-less x y ys less = ap (λ b. best score (if b then y else x) ys) less

  best-nil : (x : Text) → best score x [] ≡ x
  unfolding best
  best-nil x = refl

  best-In : (x : Text) (xs : List Text) → In (best score x xs) (x ∷ xs)
  best-In x [] = inl (best-nil x)
  best-In x (y ∷ ys) = elim (Bool-cases (ltb (score x) (score y))) [
    | inl more ↦ subst (λ z. In z (x ∷ y ∷ ys)) (sym (best-more x y ys more)) (inr (best-In y ys))
    | inr less ↦ subst (λ z. In z (x ∷ y ∷ ys)) (sym (best-less x y ys less)) (skip (best-In x ys))
  ]
    where
      skip : {z : Text} → In z (x ∷ ys) → In z (x ∷ y ∷ ys)
      skip (inl e) = inl e
      skip (inr h) = inr (inr h)

  best-ge : (x : Text) (xs : List Text) → All (λ y. score y ≤ score (best score x xs)) (x ∷ xs)
  best-ge x [] = rw (best-nil x) (omega arith, tt)
  best-ge x (y ∷ ys) = elim (Bool-cases (ltb (score x) (score y))) [
    | inl more ↦
        subst (λ z. All (λ w. score w ≤ score z) (x ∷ y ∷ ys)) (sym (best-more x y ys more))
          (let (top, others) = best-ge y ys in (ground arith, (top, others)))
    | inr less ↦
        subst (λ z. All (λ w. score w ≤ score z) (x ∷ y ∷ ys)) (sym (best-less x y ys less))
          (let (top, others) = best-ge x ys in (top, (ground arith, others)))
  ]

-- With at least one node the strategy finds one of them, and no node has a higher score for the
-- key; with none it raises.
pub rendezvous_node-max :
    (hash : Text → ℕ) (key : Text) (r : HashRing)
    → ((r.nodes ≡ []) × (rendezvous_node hash key r ≡ value_error))
      ⊎ ((node : Text) × (rendezvous_node hash key r ≡ ok node)
          × In node r.nodes
          × All
              (λ other. hash (other ++ codes ":" ++ key) ≤ hash (node ++ codes ":" ++ key))
              r.nodes)
unfolding rendezvous_node
rendezvous_node-max hash key r = of_nodes r.nodes
  where
    score : Text → ℕ
    score other = hash (other ++ codes ":" ++ key)

    of_nodes :
        (ns : List Text)
        → ((ns ≡ []) × (max_by score ns ≡ value_error))
          ⊎ ((node : Text) × (max_by score ns ≡ ok node)
              × In node ns
              × All (λ other. score other ≤ score node) ns)
    of_nodes [] = inl (refl, unfold max_by in refl)
    of_nodes (x ∷ xs) =
        inr (best score x xs, unfold max_by in refl, best-In score x xs, best-ge score x xs)
