-- ===== src/Notify/Queue/Retry.antt =====
-- What a retry of the dead-letter queue moves.
use sd_practice_qr_code_gene.Base.{
  ℕ, zero, suc, ◌≢◌, Option, none, some, List, [], ◌∷◌, ◌++◌, ◌≡◌, refl, arith, sym, ◌∙◌, ap, take,
  All,
}
use mathlib.Core.List.{append_assoc, append-nil}
use sd_practice_qr_code_gene.Base.Text.{Text}
use sd_practice_qr_code_gene.Notify.Queue.{
  Redis, delivery_stream, pop_all, requeue, dlq_retry_batch,
}

abbrev pub drop {ℓ} : {A : Type ℓ} → ℕ → List A → List A
drop zero xs = xs
drop (suc n) [] = []
drop (suc n) (x ∷ xs) = drop n xs

drop-nil : (n : ℕ) → drop {A = Text} n [] ≡ []
drop-nil zero = refl
drop-nil (suc n) = refl

-- The results of the pops: the ids, and then as many `None` as were popped in vain.
popped : ℕ → List Text → List (Option Text)
popped zero nids = []
popped (suc n) [] = none ∷ popped n []
popped (suc n) (nid ∷ nids) = some nid ∷ popped n nids

module _ (R : Redis) where
  pop_all-popped :
      (r : R.State) (count : ℕ) (nids : List Text)
      → R.dead r ≡ nids
      → ((pop_all R r count).1 ≡ popped count nids)
        × (R.dead (pop_all R r count).0 ≡ drop count nids)
        × (R.stream (pop_all R r count).0 delivery_stream ≡ R.stream r delivery_stream)
  unfolding pop_all popped
  pop_all-popped r zero nids e = (refl, e, refl)
  pop_all-popped r (suc count) [] e =
      let (left, nothing) = R.lpop_empty r e in
      let (results, after, same) = pop_all-popped (R.lpop r).0 count [] left in
      (
        ground (arith, results, nothing),
        after ∙ drop-nil count,
        same ∙ R.stream-lpop r delivery_stream,
      )
  pop_all-popped r (suc count) (nid ∷ nids) e =
      let (left, got) = R.lpop_first r nid nids e in
      let (results, after, same) = pop_all-popped (R.lpop r).0 count nids left in
      (ground (arith, results, got), after, same ∙ R.stream-lpop r delivery_stream)

  requeue-none : (r : R.State) (count : ℕ) → requeue R r (popped count []) ≡ (r, [])
  unfolding requeue popped
  requeue-none r zero = refl
  requeue-none r (suc count) = requeue-none r count

  requeue-popped :
      (r : R.State) (count : ℕ) (nids : List Text)
      → All (λ nid. nid ≢ []) nids
      → ((requeue R r (popped count nids)).1 ≡ take count nids)
        × (R.stream (requeue R r (popped count nids)).0 delivery_stream
            ≡ R.stream r delivery_stream ++ take count nids)
        × (R.dead (requeue R r (popped count nids)).0 ≡ R.dead r)
  unfolding requeue popped
  requeue-popped r zero nids a = (refl, sym (append-nil _), refl)
  requeue-popped r (suc count) [] a = rw (requeue-none r count) (refl, sym (append-nil _), refl)
  requeue-popped r (suc count) ([] ∷ nids) (h, a) = absurd (h refl)
  requeue-popped r (suc count) ((c ∷ s) ∷ nids) (h, a) =
      let r' = R.xadd r delivery_stream (c ∷ s) in
      let (ids, stream, dead) = requeue-popped r' count nids a in
      (
        ap (λ l. (c ∷ s) ∷ l) ids,
        stream
            ∙ ap (λ l. l ++ take count nids) (R.stream-xadd r delivery_stream (c ∷ s))
            ∙ append_assoc (R.stream r delivery_stream) ((c ∷ s) ∷ []) (take count nids),
        dead ∙ R.dead-xadd r delivery_stream (c ∷ s),
      )

  -- Where no id in the dead-letter queue is empty: a retry takes up to `count` of them from its
  -- front, in order, appends exactly these to the delivery stream, reports them, and leaves the rest.
  pub dlq_retry_batch-moves :
      (r : R.State) (count : ℕ)
      → All (λ nid. nid ≢ []) (R.dead r)
      → ((dlq_retry_batch R r count).1 ≡ take count (R.dead r))
        × (R.stream (dlq_retry_batch R r count).0 delivery_stream
            ≡ R.stream r delivery_stream ++ take count (R.dead r))
        × (R.dead (dlq_retry_batch R r count).0 ≡ drop count (R.dead r))
  unfolding dlq_retry_batch
  dlq_retry_batch-moves r count a =
      let (results, left, same) = pop_all-popped r count (R.dead r) refl in
      let r' = (pop_all R r count).0 in
      let (ids, stream, dead) = requeue-popped r' count (R.dead r) a in
      rw results (ids, stream ∙ ap (λ l. l ++ take count (R.dead r)) same, dead ∙ left)
