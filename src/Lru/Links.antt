-- ===== src/Lru/Links.antt =====
-- The links on the heap, against the list of references that they stand for.
use sd_practice_qr_code_gene.Base.{
  ℕ, ◌<◌, true, false, Option, none, some, List, ◌∷◌, ◌≡◌, ◌≢◌, ◌==◌, if◌then◌else◌, arith, refl,
  ◌∙◌,
}
use sd_practice_qr_code_gene.Base.Text.{Text}
use sd_practice_qr_code_gene.Lru.{
  Node, Heap, head_ref, update, set_prev, set_next, unlink, remove, link_first, prepend,
}
use sd_practice_qr_code_gene.Lru.Chain.{
  next_of, prev_of, has, Distinct, erase, next_of-has, next_of-prev_of, prev_of-next_of,
}
use sd_practice_qr_code_gene.Lru.Chain.Changes.{
  next_of-erase, prev_of-erase, next_of-insert, prev_of-insert, has-erase, erase-Distinct,
  has-insert, insert-Distinct, next_of_head, has_head, has_tail,
}

-- Below `fresh`, each node is linked to its neighbours in `l`, and to none if it is not in `l`.
pub record IsLinked (h : Heap) (fresh : ℕ) (l : List ℕ) : Type 0 where
  pub next : (y : ℕ) → y < fresh → (h y).next ≡ next_of l y
  pub prev : (y : ℕ) → y < fresh → (h y).prev ≡ prev_of l y
  pub distinct : Distinct l
  pub allocated : (y : ℕ) → has l y ≡ true → y < fresh

-- What a node stores, its links aside.
pub record Entry : Type 0 where
  pub key : Text
  pub value : Text
  pub expires_at : Option ℕ

abbrev pub entry : Node → Entry
entry n = record { key = n.key; value = n.value; expires_at = n.expires_at }

-- The heap after `_remove` of `n` between `p` and `q`.
after_unlink : Heap → ℕ → ℕ → ℕ → Heap
after_unlink h n p q =
    set_next (set_prev (set_prev (set_next h p (some q)) q (some p)) n none) n none

module _ (h : Heap) (n p q : ℕ) (y : ℕ) where
  next-after_unlink :
      (after_unlink h n p q y).next
      ≡ (if y == n then none else if y == p then some q else (h y).next)
  unfolding after_unlink set_next set_prev update
  next-after_unlink = ground arith

  prev-after_unlink :
      (after_unlink h n p q y).prev
      ≡ (if y == n then none else if y == q then some p else (h y).prev)
  unfolding after_unlink set_next set_prev update
  prev-after_unlink = ground arith

  entry-after_unlink : entry (after_unlink h n p q y) ≡ entry (h y)
  unfolding after_unlink set_next set_prev update
  entry-after_unlink = ground arith

-- The heap after `_prepend` of `n` before `f`.
after_link : Heap → ℕ → ℕ → Heap
after_link h n f =
    set_next (set_prev (set_next (set_prev h n (some head_ref)) n (some f)) f (some n)) head_ref
      (some n)

module _ (h : Heap) (n f : ℕ) (y : ℕ) where
  next-after_link :
      (after_link h n f y).next
      ≡ (if y == head_ref then some n else if y == n then some f else (h y).next)
  unfolding after_link set_next set_prev update
  next-after_link = ground arith

  prev-after_link :
      (after_link h n f y).prev
      ≡ (if y == f then some n else if y == n then some head_ref else (h y).prev)
  unfolding after_link set_next set_prev update
  prev-after_link = ground arith

  entry-after_link : entry (after_link h n f y) ≡ entry (h y)
  unfolding after_link set_next set_prev update
  entry-after_link = ground arith

-- An operation on the links that succeeds, with the list that they then stand for; what the nodes
-- store is left alone.
pub record Relinks (h : Heap) (fresh : ℕ) (l : List ℕ) (o : Option Heap) : Type 0 where
  pub heap : Heap
  pub runs : o ≡ some heap
  pub linked : IsLinked heap fresh l
  pub same : (y : ℕ) → entry (heap y) ≡ entry (h y)

module _ (h : Heap) (fresh : ℕ) (l : List ℕ) (v : IsLinked h fresh l) where
  after_unlink-IsLinked :
      (n p q : ℕ)
      → prev_of l n ≡ some p
      → next_of l n ≡ some q
      → IsLinked (after_unlink h n p q) fresh (erase n l)
  after_unlink-IsLinked n p q before after = record {
    next = λ y small. ground (
      arith,
      next-after_unlink h n p q y,
      v.next y,
      next_of-erase n l y v.distinct,
      next_of-prev_of l n p v.distinct,
      prev_of-next_of l n y v.distinct,
    );
    prev = λ y small. ground (
      arith,
      prev-after_unlink h n p q y,
      v.prev y,
      prev_of-erase n l y v.distinct,
      prev_of-next_of l q n v.distinct,
      next_of-prev_of l y n v.distinct,
    );
    distinct = erase-Distinct n l v.distinct;
    allocated = λ y inside. ground (arith, has-erase n l y v.distinct, v.allocated y);
  }

  -- `_remove` takes an inner node out.
  pub remove-Relinks :
      (n p q : ℕ)
      → prev_of l n ≡ some p
      → next_of l n ≡ some q
      → Relinks h fresh (erase n l) (remove h n)
  unfolding remove unlink after_unlink
  remove-Relinks n p q before after = record {
    heap = after_unlink h n p q;
    runs =
        let small : n < fresh = v.allocated n (next_of-has l n q after).0 in
        rw (v.prev n small, v.next n small, before, after) refl;
    linked = after_unlink-IsLinked n p q before after;
    same = λ y. entry-after_unlink h n p q y;
  }

module _ (h : Heap) (n f : ℕ) where
  head-set_prev : n ≢ head_ref → (set_prev h n (some head_ref) head_ref).next ≡ (h head_ref).next
  unfolding set_prev update
  head-set_prev ne = ground arith

  head-set_next : n ≢ head_ref → (set_next h n (some f) head_ref).next ≡ (h head_ref).next
  unfolding set_next update
  head-set_next ne = ground arith

prepend_runs :
    (h : Heap) (n f : ℕ)
    → n ≢ head_ref
    → (h head_ref).next ≡ some f
    → prepend h n ≡ some (after_link h n f)
unfolding prepend link_first after_link
prepend_runs h n f ne e =
    rw
      (
        head-set_prev h n f ne,
        e,
        head-set_next (set_prev h n (some head_ref)) n f ne,
        head-set_prev h n f ne,
        e,
      )
      refl

module _ (h : Heap) (fresh n f : ℕ) (rest : List ℕ)
    (v : IsLinked h fresh (head_ref ∷ f ∷ rest)) where
  after_link-IsLinked :
      has (head_ref ∷ f ∷ rest) n ≡ false
      → n < fresh
      → IsLinked (after_link h n f) fresh (head_ref ∷ n ∷ f ∷ rest)
  after_link-IsLinked absent small = record {
    next = λ y low. ground (
      arith,
      next-after_link h n f y,
      next_of-insert n head_ref (f ∷ rest) y,
      next_of_head head_ref f rest,
      has_head head_ref (f ∷ rest),
      v.next y,
    );
    prev = λ y low. ground (
      arith,
      prev-after_link h n f y,
      prev_of-insert n head_ref (f ∷ rest) y v.distinct,
      has_tail head_ref (f ∷ rest) n absent,
      has_head f rest,
      has_head head_ref (f ∷ rest),
      next_of_head head_ref f rest,
      prev_of-next_of (head_ref ∷ f ∷ rest) f head_ref v.distinct,
      next_of-prev_of (head_ref ∷ f ∷ rest) y head_ref v.distinct,
      v.prev y,
    );
    distinct = insert-Distinct head_ref n (f ∷ rest) v.distinct absent;
    allocated = λ y inside. ground (arith, has-insert head_ref n (f ∷ rest) y, v.allocated y);
  }

  -- `_prepend` of a node that is in no list puts it behind the head.
  pub prepend-Relinks :
      has (head_ref ∷ f ∷ rest) n ≡ false
      → n < fresh
      → Relinks h fresh (head_ref ∷ n ∷ f ∷ rest) (prepend h n)
  prepend-Relinks absent small = record {
    heap = after_link h n f;
    runs = prepend_runs h n f (ground (arith, has_head head_ref (f ∷ rest))) (
        v.next head_ref (v.allocated head_ref (has_head head_ref (f ∷ rest)))
        ∙ next_of_head head_ref f rest);
    linked = after_link-IsLinked absent small;
    same = λ y. entry-after_link h n f y;
  }
