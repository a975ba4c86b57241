-- ===== src/Lru/Stored/Front.antt =====
-- Entries that come to the front: a hit, an update, a new one.
use sd_practice_qr_code_gene.Base.{
  ℕ, ◌+◌, ◌<◌, true, false, none, some, List, ◌∷◌, ◌≡◌, ◌≢◌, ite, arith, refl, ap, sym, ◌∙◌, inl,
  inr, ℕ_discrete, Bool-cases,
}
use sd_practice_qr_code_gene.Base.Text.{Text, text_dec}
use sd_practice_qr_code_gene.Lru.{Heap, lookup, prepend, move_to_head}
use sd_practice_qr_code_gene.Lru.Chain.{has, erase, next_of_absent, prev_of_absent}
use sd_practice_qr_code_gene.Lru.Chain.Changes.{has-erase, has_split}
use sd_practice_qr_code_gene.Lru.Chain.Inner.{
  full, has-full, inner_of_Distinct, inner-Distinct, length-erase,
}
use sd_practice_qr_code_gene.Lru.Links.{IsLinked, Entry, entry, Relinks}
use sd_practice_qr_code_gene.Lru.Recent.{drop_key}
use sd_practice_qr_code_gene.Lru.Entries.{map_except, has_here, has_later, has_other}
use sd_practice_qr_code_gene.Lru.Stored.{IsStored, taken_out, put_in, drop-listed}

lookup-put :
    (k j : Text) (r : ℕ) (m : List (Text × ℕ))
    → lookup j ((k, r) ∷ m) ≡ ite (text_dec k j) (some r) (lookup j m)
unfolding lookup
lookup-put k j r m = refl

module _ (h : Heap) (fresh : ℕ) (cache : List (Text × ℕ)) (items : List Entry)
    (v : IsStored h fresh cache items) where
  moved :
      (h' : Heap) (r : ℕ)
      → IsLinked h' fresh (full v.inner)
      → has v.inner r ≡ true
      → Relinks h' fresh (full (r ∷ erase r v.inner)) (move_to_head h' r)
  unfolding move_to_head
  moved h' r linked inside =
      let w = taken_out h' fresh v.inner r linked inside in
      let (not_head, not_tail) = inner_of_Distinct v.inner r linked.distinct inside in
      let absent : has (full (erase r v.inner)) r ≡ false = ground (
        arith,
        has-full (erase r v.inner) r,
        has-erase r v.inner r (inner-Distinct v.inner linked.distinct),
      ) in
      let small : r < fresh = linked.allocated r (ground (arith, has-full v.inner r)) in
      let u = put_in w.heap fresh (erase r v.inner) r w.linked absent small in
      record {
        heap = u.heap;
        runs = rw (w.runs, move_to_head) u.runs;
        linked = u.linked;
        same = λ y. u.same y ∙ w.same y;
      }

  -- An entry that is there comes to the front, after its node was written to or not.
  pub front-IsStored :
      (k : Text) (r : ℕ) (h0 : Heap)
      → lookup k cache ≡ some r
      → IsLinked h0 fresh (full v.inner)
      → ((y : ℕ) → y ≢ r → entry (h0 y) ≡ entry (h y))
      → (h0 r).key ≡ k
      → (h' : Heap) × (move_to_head h0 r ≡ some h')
        × (entry (h' r) ≡ entry (h0 r))
        × IsStored h' fresh cache (entry (h0 r) ∷ drop_key k items)
  front-IsStored k r h0 e linked others key0 =
      let (inside, key) = v.sound k r e in
      let w = moved h0 r linked inside in
      let split = has_split r v.inner (inner-Distinct v.inner linked.distinct) inside in
      let absent : has (erase r v.inner) r ≡ false =
        ground (arith, has-erase r v.inner r (inner-Distinct v.inner linked.distinct)) in
      let same_key : (y : ℕ) → (w.heap y).key ≡ (h y).key = λ y. elim (ℕ_discrete y r) [
        | yes here ↦ ap (λ n. n.key) (w.same y) ∙ rw here (key0 ∙ sym key)
        | no apart ↦ ap (λ n. n.key) (w.same y ∙ others y apart)
      ] in
      (
        w.heap,
        w.runs,
        w.same r,
        record {
          inner = r ∷ erase r v.inner;
          linked = w.linked;
          listed =
              ap (λ a. a ∷ drop_key k items) (sym (w.same r))
              ∙ ap (λ es. entry (w.heap r) ∷ es)
                  (drop-listed h fresh cache items v k r e
                    ∙ map_except (λ x. entry (h x)) (λ x. entry (w.heap x)) r
                        (λ y apart. w.same y ∙ others y apart) (erase r v.inner) absent);
          sound = λ j q found.
              let (inside', key') = v.sound j q found in (split q ∙ inside', same_key q ∙ key');
          complete = λ q here. rw (same_key q) (v.complete q (sym (split q) ∙ here));
          dict = v.dict;
          size = omega (arith, length-erase r v.inner inside, v.size);
        },
      )

  -- A new node holds a new key.
  pub push-IsStored :
      (h0 : Heap) (e : Entry)
      → lookup e.key cache ≡ none
      → ((y : ℕ) → y ≢ fresh → h0 y ≡ h y)
      → entry (h0 fresh) ≡ e
      → (h0 fresh).prev ≡ none
      → (h0 fresh).next ≡ none
      → (h' : Heap) × (prepend h0 fresh ≡ some h')
        × IsStored h' (fresh + 1) ((e.key, fresh) ∷ cache) (e ∷ items)
  push-IsStored h0 e new others own no_prev no_next =
      let outside : has (full v.inner) fresh ≡ false =
        elim (Bool-cases (has (full v.inner) fresh)) [
          | inl inside ↦ absurd (omega (arith, v.linked.allocated fresh inside))
          | inr absent ↦ absent
        ] in
      let absent : has v.inner fresh ≡ false = ground (arith, has-full v.inner fresh) in
      let linked : IsLinked h0 (fresh + 1) (full v.inner) = record {
        next = λ y low. elim (ℕ_discrete y fresh) [
          | yes here ↦ rw here (no_next ∙ sym (next_of_absent (full v.inner) fresh outside))
          | no apart ↦ rw (others y apart) (v.linked.next y (omega arith))
        ];
        prev = λ y low. elim (ℕ_discrete y fresh) [
          | yes here ↦ rw here (no_prev ∙ sym (prev_of_absent (full v.inner) fresh outside))
          | no apart ↦ rw (others y apart) (v.linked.prev y (omega arith))
        ];
        distinct = v.linked.distinct;
        allocated = λ y inside. omega (arith, v.linked.allocated y inside);
      } in
      let w = put_in h0 (fresh + 1) v.inner fresh linked outside (omega arith) in
      let own_key : (w.heap fresh).key ≡ e.key = ap (λ x. x.key) (w.same fresh ∙ own) in
      let same_key : (y : ℕ) → y ≢ fresh → (w.heap y).key ≡ (h y).key =
        λ y apart. ap (λ n. n.key) (w.same y ∙ ap entry (others y apart)) in
      (
        w.heap,
        w.runs,
        record {
          inner = fresh ∷ v.inner;
          linked = w.linked;
          listed =
              ap (λ a. a ∷ items) (sym (w.same fresh ∙ own))
              ∙ ap (λ es. entry (w.heap fresh) ∷ es)
                  (v.listed
                    ∙ map_except (λ x. entry (h x)) (λ x. entry (w.heap x)) fresh
                        (λ y apart. w.same y ∙ ap entry (others y apart)) v.inner absent);
          sound = λ j q found. elim (text_dec e.key j) [
            | yes same ↦
                let here : q ≡ fresh = ground (arith, lookup-put e.key j fresh cache) in
                rw here (has_here fresh v.inner, own_key ∙ same)
            | no other ↦
                let old : lookup j cache ≡ some q =
                  ground (arith, lookup-put e.key j fresh cache) in
                let (inside, key) = v.sound j q old in
                let apart : q ≢ fresh = λ same. absurd (let out = rw (← same) at absent in cc) in
                (has_later fresh v.inner q inside, same_key q apart ∙ key)
          ];
          complete = λ q here. elim (ℕ_discrete q fresh) [
            | yes same ↦ rw same (rw own_key (ground (arith, lookup-put e.key e.key fresh cache)))
            | no apart ↦
                let inside : has v.inner q ≡ true =
                  has_other fresh v.inner q here (λ x. apart (sym x)) in
                rw (same_key q apart)
                  (ground (arith, lookup-put e.key (h q).key fresh cache, v.complete q inside))
          ];
          dict = (new, v.dict);
          size = omega (arith, v.size);
        },
      )
