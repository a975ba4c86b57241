-- ===== src/Lru/Stored.antt =====
-- Heap and `dict` together stand for a list of entries.
pub mod Front
use sd_practice_qr_code_gene.Base.{
  ℕ, ◌+◌, ◌<◌, Bool, true, false, Option, none, some, List, [], ◌∷◌, ◌≡◌, ◌≢◌, ◌==◌, if◌then◌else◌,
  ite, arith, refl, map, length, ap, sym, ◌∙◌, inl, inr,
}
use mathlib.Core.Path.{subst, fun_ext}
use sd_practice_qr_code_gene.Base.Text.{Text, text_dec}
use sd_practice_qr_code_gene.Lru.{
  Node, Heap, head_ref, tail_ref, lookup, without, remove, prepend, move_to_head,
}
use sd_practice_qr_code_gene.Lru.Chain.{has, erase, Distinct}
use sd_practice_qr_code_gene.Lru.Chain.Changes.{has-erase}
use sd_practice_qr_code_gene.Lru.Chain.Inner.{
  full, has-full, inner_of_Distinct, inner-Distinct, neighbours, erase-full, length-erase,
  full_cases,
}
use sd_practice_qr_code_gene.Lru.Dict.{IsDict, lookup-without, without-IsDict, length-without}
use sd_practice_qr_code_gene.Lru.Links.{
  IsLinked, Entry, entry, Relinks, remove-Relinks, prepend-Relinks,
}
use sd_practice_qr_code_gene.Lru.Recent.{find, drop_key}
use sd_practice_qr_code_gene.Lru.Entries.{
  find-map, drop_key-map, find-map_absent, map-same, map_except,
}

-- `inner` is the order of use.
pub record IsStored (h : Heap) (fresh : ℕ) (cache : List (Text × ℕ)) (items : List Entry)
    : Type 0 where
  pub inner : List ℕ
  pub linked : IsLinked h fresh (full inner)
  pub listed : items ≡ map (λ r. entry (h r)) inner
  pub sound : (k : Text) (r : ℕ) → lookup k cache ≡ some r → (has inner r ≡ true) × ((h r).key ≡ k)
  pub complete : (r : ℕ) → has inner r ≡ true → lookup (h r).key cache ≡ some r
  pub dict : IsDict cache
  pub size : length cache ≡ length inner

-- An inner node is taken out of the links.
pub taken_out :
    (h : Heap) (fresh : ℕ) (inner : List ℕ) (r : ℕ)
    → IsLinked h fresh (full inner)
    → has inner r ≡ true
    → Relinks h fresh (full (erase r inner)) (remove h r)
taken_out h fresh inner r linked inside =
    let (not_head, not_tail) = inner_of_Distinct inner r linked.distinct inside in
    let ((p, before), (q, after)) = neighbours inner r inside not_head in
    subst (λ l. Relinks h fresh l (remove h r)) (erase-full r inner not_head not_tail)
      (remove-Relinks h fresh (full inner) linked r p q before after)

-- A node that is in no list is put behind the head.
pub put_in :
    (h : Heap) (fresh : ℕ) (inner : List ℕ) (r : ℕ)
    → IsLinked h fresh (full inner)
    → has (full inner) r ≡ false
    → r < fresh
    → Relinks h fresh (full (r ∷ inner)) (prepend h r)
put_in h fresh inner r linked absent small =
    let (f, rest, shape) = full_cases inner in
    subst (λ l. Relinks h fresh (head_ref ∷ r ∷ l) (prepend h r)) (sym shape)
      (prepend-Relinks h fresh r f rest (subst (λ l. IsLinked h fresh (head_ref ∷ l)) shape linked)
        (subst (λ l. has (head_ref ∷ l) r ≡ false) shape absent) small)

module _ (h : Heap) (fresh : ℕ) (cache : List (Text × ℕ)) (items : List Entry)
    (v : IsStored h fresh cache items) where
  pub only_at :
      (k : Text) (r : ℕ)
      → lookup k cache ≡ some r
      → (x : ℕ) → has v.inner x ≡ true
      → (h x).key ≡ k
      → x ≡ r
  only_at k r e x inside same = ground (arith, v.complete x)

  -- The abstract look-up.
  pub find-stored : (k : Text) (r : ℕ) → lookup k cache ≡ some r → find k items ≡ some (entry (h r))
  find-stored k r e =
      let (inside, key) = v.sound k r e in
      rw (v.listed) (find-map (λ x. entry (h x)) k r v.inner (only_at k r e) inside key)

  pub find-absent : (k : Text) → lookup k cache ≡ none → find k items ≡ none
  find-absent k e =
      rw (v.listed) (
        find-map_absent (λ x. entry (h x)) k v.inner
          (λ x inside same. ground (arith, v.complete x)))

  pub drop-listed :
      (k : Text) (r : ℕ)
      → lookup k cache ≡ some r
      → drop_key k items ≡ map (λ x. entry (h x)) (erase r v.inner)
  drop-listed k r e =
      let (inside, key) = v.sound k r e in
      rw (v.listed) (drop_key-map (λ x. entry (h x)) k r v.inner (only_at k r e) inside key)

  kept :
      (k j : Text) (q : ℕ)
      → lookup j (without k cache) ≡ some q
      → (k ≢ j) × (lookup j cache ≡ some q)
  kept k j q found = elim (text_dec k j) [
    | yes same ↦ absurd (ground (arith, lookup-without k j cache))
    | no other ↦ (other, ground (arith, lookup-without k j cache))
  ]

  -- Taking an entry out.
  pub drop-IsStored :
      (k : Text) (r : ℕ)
      → lookup k cache ≡ some r
      → (h' : Heap) × (remove h r ≡ some h')
        × IsStored h' fresh (without k cache) (drop_key k items)
  drop-IsStored k r e =
      let (inside, key) = v.sound k r e in
      let w = taken_out h fresh v.inner r v.linked inside in
      (
        w.heap,
        w.runs,
        record {
          inner = erase r v.inner;
          linked = w.linked;
          listed =
              drop-listed k r e
              ∙ map-same (λ x. entry (h x)) (λ x. entry (w.heap x)) w.same (erase r v.inner);
          sound = λ j q found.
              let (apart, old) = kept k j q found in
              let (inside', key') = v.sound j q old in
              (
                ground (arith, has-erase r v.inner q (inner-Distinct v.inner v.linked.distinct)),
                ap (λ n. n.key) (w.same q) ∙ key',
              );
          complete = λ q here. rw (ap (λ n. n.key) (w.same q)) (
              ground (
                arith,
                has-erase r v.inner q (inner-Distinct v.inner v.linked.distinct),
                v.complete q,
                lookup-without k (h q).key cache,
              ));
          dict = without-IsDict k cache v.dict;
          size =
              omega
                (arith, length-without k r cache v.dict e, length-erase r v.inner inside, v.size);
        },
      )
