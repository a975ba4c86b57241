-- ===== src/Notify/Routes/RateLimit/Windows.antt =====
-- The checks of several users, whatever their order.
use sd_practice_qr_code_gene.Base.{
  ℕ, suc, ◌/◌, ◌<◌, Bool, List, [], ◌∷◌, ◌≡◌, refl, arith, sym, ◌∙◌, ap, ite, leb, ◌==◌,
  if◌then◌else◌, if_pos, if_neg, Bool-cases, inl, inr,
}
use mathlib.Core.Path.{ap₂}
use sd_practice_qr_code_gene.Base.Text.{Text, text_dec}
use sd_practice_qr_code_gene.Notify.Routes.RateLimit.{
  Counters, Limits, rate_limit_key, check_rate_limit,
}
use sd_practice_qr_code_gene.Notify.Routes.RateLimit.Keys.{rate_limit_key-injective}

-- The requests of a user in a window.
pub requests_of : Text → ℕ → List (Text × ℕ) → ℕ
requests_of user_id bucket [] = 0
requests_of user_id bucket ((v, b) ∷ requests) =
    let rest = requests_of user_id bucket requests in
    ite (text_dec v user_id) (if b == bucket then suc rest else rest) rest

requests_of-same :
    (u v : Text) (b c : ℕ) (earlier : List (Text × ℕ))
    → u ≡ v
    → b ≡ c
    → requests_of v c ((u, b) ∷ earlier) ≡ suc (requests_of v c earlier)
unfolding requests_of
requests_of-same u v b c earlier own now = if_pos (text_dec u v) own _ _ ∙ ground (arith, now)

requests_of-other :
    (u v : Text) (b c : ℕ) (earlier : List (Text × ℕ))
    → (u ≡ v → b ≡ c → ⊥)
    → requests_of v c ((u, b) ∷ earlier) ≡ requests_of v c earlier
unfolding requests_of
requests_of-other u v b c earlier h = elim (text_dec u v) [
  | yes own ↦ if_pos (text_dec u v) own _ _ ∙ (let later : ¬ (b ≡ c) = h own in ground arith)
  | no other ↦ if_neg (text_dec u v) other _ _
]

-- The answers to requests, each in its window: one is allowed while fewer than `per_user` of its
-- user have come in that window before.
pub first_ones : Limits → List (Text × ℕ) → List (Text × ℕ) → List Bool
first_ones lim earlier [] = []
first_ones lim earlier ((user_id, secs) ∷ requests) =
    let bucket = secs / lim.window in
    leb (suc (requests_of user_id bucket earlier)) lim.per_user
    ∷ first_ones lim ((user_id, bucket) ∷ earlier) requests

module _ (C : Counters) (lim : Limits) where
  -- The answers of the checks, one after another.
  pub checks : C.State → List (Text × ℕ) → List Bool
  checks s [] = []
  checks s ((user_id, secs) ∷ requests) =
      let (s', granted) = check_rate_limit C lim s user_id secs in granted ∷ checks s' requests

  module _ (positive : 0 < lim.window) where
    check-count :
        (s : C.State) (user_id : Text) (secs : ℕ) (j : Text)
        → C.count (check_rate_limit C lim s user_id secs).0 j
          ≡ C.count (C.incr s (rate_limit_key user_id (secs / lim.window))).0 j
    unfolding check_rate_limit
    check-count s user_id secs j =
        let key = rate_limit_key user_id (secs / lim.window) in
        elim (Bool-cases ((C.incr s key).1 == 1)) [
          | inl first ↦
              rw (first, if◌then◌else◌) (C.count-expire (C.incr s key).0 key j lim.window positive)
          | inr later ↦ rw (later, if◌then◌else◌) refl
        ]

    check-counts :
        (s : C.State) (user_id v : Text) (secs b : ℕ) (earlier : List (Text × ℕ))
        → ((w : Text) (d : ℕ) → C.count s (rate_limit_key w d) ≡ requests_of w d earlier)
        → C.count (check_rate_limit C lim s user_id secs).0 (rate_limit_key v b)
          ≡ requests_of v b ((user_id, secs / lim.window) ∷ earlier)
    unfolding check_rate_limit requests_of
    check-counts s user_id v secs b earlier h =
        let bucket = secs / lim.window in
        let key = rate_limit_key user_id bucket in
        check-count s user_id secs (rate_limit_key v b)
        ∙ C.count-incr s key (rate_limit_key v b)
        ∙ elim (text_dec key (rate_limit_key v b)) [
          | yes same ↦
              let (own, now) = rate_limit_key-injective user_id v bucket b same in
              if_pos (text_dec key (rate_limit_key v b)) same _ _
              ∙ ap suc (h user_id bucket ∙ ap₂ (λ w d. requests_of w d earlier) own now)
              ∙ sym (requests_of-same user_id v bucket b earlier own now)
          | no other ↦
              if_neg (text_dec key (rate_limit_key v b)) other _ _
              ∙ h v b
              ∙ sym (
                  requests_of-other user_id v bucket b earlier
                    (λ own now. other (ap₂ rate_limit_key own now)))
        ]

    check-granted :
        (s : C.State) (user_id : Text) (secs n : ℕ)
        → C.count s (rate_limit_key user_id (secs / lim.window)) ≡ n
        → (check_rate_limit C lim s user_id secs).1 ≡ leb (suc n) lim.per_user
    unfolding check_rate_limit
    check-granted s user_id secs n e = ap (λ m. leb m lim.per_user) (C.incr_answer s _ ∙ ap suc e)

    checks-first_ones :
        (s : C.State) (earlier requests : List (Text × ℕ))
        → ((w : Text) (d : ℕ) → C.count s (rate_limit_key w d) ≡ requests_of w d earlier)
        → checks s requests ≡ first_ones lim earlier requests
    unfolding checks first_ones
    checks-first_ones s earlier [] h = refl
    checks-first_ones s earlier ((user_id, secs) ∷ requests) h =
        let bucket = secs / lim.window in
        ap₂ (λ g l. g ∷ l) (check-granted s user_id secs _ (h user_id bucket))
          (checks-first_ones (check_rate_limit C lim s user_id secs).0 ((user_id, bucket) ∷ earlier)
            requests (λ v b. check-counts s user_id v secs b earlier h))

-- Where no counter has a number yet: whatever the users of the requests and their order, a request
-- is allowed just when fewer than RATE_LIMIT_PER_USER requests of its user have come before it in
-- its window, those that were refused included.
pub check_rate_limit-checks :
    (C : Counters) (lim : Limits) (s : C.State) (requests : List (Text × ℕ))
    → 0 < lim.window
    → ((k : Text) → C.count s k ≡ 0)
    → checks C lim s requests ≡ first_ones lim [] requests
unfolding requests_of
check_rate_limit-checks C lim s requests positive zero_all =
    checks-first_ones C lim positive s [] requests (λ w d. zero_all (rate_limit_key w d))
