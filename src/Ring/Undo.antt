-- ===== src/Ring/Undo.antt =====
-- Taking a virtual node off the ring undoes putting it on.
use sd_practice_qr_code_gene.Base.{
  ℕ, ◌≤◌, none, List, [], ◌∷◌, ◌≡◌, inl, inr, leb, ltb, ◌==◌, if◌then◌else◌, arith, refl, All,
  Bool-cases, ap,
}
use sd_practice_qr_code_gene.Base.Text.{Text}
use sd_practice_qr_code_gene.Ring.{
  HashRing, bisect_left, pop_at, insort, lookup, remove, drop_position, virtual_position,
  add_virtual, remove_virtual,
}
use sd_practice_qr_code_gene.Ring.Bisect.{IsSorted, insort-nil, insort-cons}

-- `drop_position` as a recursion.
drop_position-cons :
    (h y : ℕ) (ys : List ℕ)
    → drop_position (y ∷ ys) h
      ≡ (if ltb y h then y ∷ drop_position ys h else if y == h then ys else y ∷ ys)
unfolding drop_position bisect_left pop_at
drop_position-cons h y ys = ground arith

insort-least : (h : ℕ) (ys : List ℕ) → All (λ y. h ≤ y) ys → insort ys h ≡ h ∷ ys
insort-least h [] a = insort-nil h
insort-least h (y ∷ ys) (a, more) = elim (Bool-cases (leb y h)) [
  | inl low ↦ rw (insort-cons h y ys, low, insort-least h ys more) (ground arith)
  | inr high ↦ rw (insort-cons h y ys, high) refl
]

drop_position-insort : (h : ℕ) (xs : List ℕ) → IsSorted xs → drop_position (insort xs h) h ≡ xs
drop_position-insort h [] s = rw (insort-nil h, drop_position-cons h h []) (ground arith)
drop_position-insort h (y ∷ ys) (a, s) = elim (Bool-cases (leb y h)) [
  | inl low ↦
      rw (insort-cons h y ys, low, drop_position-cons h y (insort ys h))
        (elim (Bool-cases (ltb y h)) [
          | inl less ↦ rw less (ap (λ zs. y ∷ zs) (drop_position-insort h ys s))
          | inr other ↦
              let same : y ≡ h = ground arith in ground (arith, insort-least h ys (rw same at a))
        ])
  | inr high ↦ rw (insort-cons h y ys, high, drop_position-cons h h (y ∷ ys)) (ground arith)
]

remove-absent : (h : ℕ) (m : List (ℕ × Text)) → lookup h m ≡ none → remove h m ≡ m
unfolding lookup remove
remove-absent h [] e = refl
remove-absent h ((j, v) ∷ m) e = ground (arith, remove-absent h m)

-- On a ring with sorted positions, whose map has no entry for the position of a virtual node,
-- removing the virtual node after adding it gives back the ring.
pub remove_virtual-add_virtual :
    (hash : Text → ℕ) (node_id : Text) (i : ℕ) (r : HashRing)
    → IsSorted r.positions
    → lookup (virtual_position hash node_id i) r.ring_map ≡ none
    → remove_virtual hash node_id i (add_virtual hash node_id i r) ≡ r
unfolding remove_virtual add_virtual lookup remove
remove_virtual-add_virtual hash node_id i r s e =
    let h = virtual_position hash node_id i in
    ground (arith, drop_position-insort h r.positions s, remove-absent h r.ring_map e)
