-- ===== src/Lru/Entries.antt =====
-- What the nodes of the list store, read as the entries of the cache.
use sd_practice_qr_code_gene.Base.{
  ℕ, true, false, none, some, List, [], ◌∷◌, ◌≡◌, ◌≢◌, arith, refl, map, length, if_pos, if_neg, ap,
  ◌∙◌,
}
use sd_practice_qr_code_gene.Base.Text.{Text, text_dec}
use sd_practice_qr_code_gene.Lru.Chain.{has, erase, Distinct}
use sd_practice_qr_code_gene.Lru.Chain.Inner.{last_of}
use sd_practice_qr_code_gene.Lru.Links.{Entry}
use sd_practice_qr_code_gene.Lru.Recent.{find, drop_key, drop_last}

pub has_here : (x : ℕ) (l : List ℕ) → has (x ∷ l) x ≡ true
unfolding has
has_here x l = ground arith

pub has_later : (x : ℕ) (l : List ℕ) (y : ℕ) → has l y ≡ true → has (x ∷ l) y ≡ true
unfolding has
has_later x l y h = ground arith

pub has_other : (x : ℕ) (l : List ℕ) (y : ℕ) → has (x ∷ l) y ≡ true → x ≢ y → has l y ≡ true
unfolding has
has_other x l y h ne = ground arith

module _ (g : ℕ → Entry) (k : Text) where
  -- Where a key is stored at one reference of the list alone, the first entry with the key is that
  -- of the reference.
  pub find-map :
      (r : ℕ) (l : List ℕ)
      → ((x : ℕ) → has l x ≡ true → (g x).key ≡ k → x ≡ r)
      → has l r ≡ true
      → (g r).key ≡ k
      → find k (map g l) ≡ some (g r)
  unfolding find
  find-map r [] only h e = absurd (unfold has in cc)
  find-map r (x ∷ l) only h e = elim (text_dec (g x).key k) [
    | yes same ↦
        if_pos (text_dec (g x).key k) same (some (g x)) (find k (map g l))
        ∙ ap (λ y. some (g y)) (only x (has_here x l) same)
    | no other ↦
        if_neg (text_dec (g x).key k) other (some (g x)) (find k (map g l))
        ∙ find-map r l (λ y inside. only y (has_later x l y inside))
            (has_other x l r h (λ same. other (rw same e))) e
  ]

  pub drop_key-map :
      (r : ℕ) (l : List ℕ)
      → ((x : ℕ) → has l x ≡ true → (g x).key ≡ k → x ≡ r)
      → has l r ≡ true
      → (g r).key ≡ k
      → drop_key k (map g l) ≡ map g (erase r l)
  unfolding drop_key erase
  drop_key-map r [] only h e = absurd (unfold has in cc)
  drop_key-map r (x ∷ l) only h e = elim (text_dec (g x).key k) [
    | yes same ↦ let here : x ≡ r = only x (has_here x l) same in ground arith
    | no other ↦
        let apart : x ≢ r = λ same. other (rw same e) in
        ground (
          arith,
          drop_key-map r l (λ y inside. only y (has_later x l y inside)) (has_other x l r h apart)
              e,
        )
  ]

  pub find-map_absent :
      (l : List ℕ) → ((x : ℕ) → has l x ≡ true → (g x).key ≢ k) → find k (map g l) ≡ none
  unfolding find
  find-map_absent [] absent = refl
  find-map_absent (x ∷ l) absent =
      if_neg (text_dec (g x).key k) (absent x (has_here x l)) (some (g x)) (find k (map g l))
      ∙ find-map_absent l (λ y h. absent y (has_later x l y h))

pub map-drop_last {ℓ} :
    {A B : Type ℓ} (f : A → B) (l : List A) → map f (drop_last l) ≡ drop_last (map f l)
map-drop_last f [] = refl
map-drop_last f (x ∷ []) = refl
map-drop_last f (x ∷ y ∷ l) = ap (λ t. f x ∷ t) (map-drop_last f (y ∷ l))

pub has-last_of : (x : ℕ) (l : List ℕ) → has (x ∷ l) (last_of x l) ≡ true
unfolding last_of
has-last_of x [] = has_here x []
has-last_of x (y ∷ l) = has_later x (y ∷ l) (last_of y l) (has-last_of y l)

pub erase-last_of :
    (x : ℕ) (l : List ℕ) → Distinct (x ∷ l) → erase (last_of x l) (x ∷ l) ≡ drop_last (x ∷ l)
unfolding last_of erase
erase-last_of x [] d = ground arith
erase-last_of x (y ∷ l) (new, d) = ground (arith, erase-last_of y l d, has-last_of y l)

pub length-map : (g : ℕ → Entry) (l : List ℕ) → length (map g l) ≡ length l
length-map g [] = refl
length-map g (x ∷ l) = omega (arith, length-map g l)

pub map-same : (f g : ℕ → Entry) → ((y : ℕ) → g y ≡ f y) → (l : List ℕ) → map f l ≡ map g l
map-same f g same [] = refl
map-same f g same (x ∷ l) = ground (arith, same x, map-same f g same l)

-- Elsewhere than at `r` the two agree.
pub map_except :
    (f g : ℕ → Entry) (r : ℕ)
    → ((y : ℕ) → y ≢ r → g y ≡ f y)
    → (l : List ℕ) → has l r ≡ false
    → map f l ≡ map g l
unfolding has
map_except f g r same [] out = refl
map_except f g r same (x ∷ l) out = ground (arith, same x, map_except f g r same l)
