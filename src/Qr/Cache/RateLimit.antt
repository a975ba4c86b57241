-- ===== src/Qr/Cache/RateLimit.antt =====
-- The fixed window of `check_rate_limit`.
use Prim.Native.Nat.{min}
use sd_practice_qr_code_gene.Base.{
  ℕ, ◌+◌, ◌-◌, ◌/◌, some, ◌≡◌, leb, refl, List, [], ◌∷◌, if◌then◌else◌, arith, length, All, if_pos,
  ◌==◌,
}
use sd_practice_qr_code_gene.Base.Text.{Text}
use sd_practice_qr_code_gene.Qr.Service.{Key, rate_key, Redis, key_dec}
use sd_practice_qr_code_gene.Qr.Cache.{Client, check_rate_limit}

module _ (R : Redis) (max_requests window : ℕ) (ip : Text) where
  -- How many of the requests that arrive at the given times are allowed.
  pub allowed : Client R → List ℕ → ℕ
  allowed c [] = 0
  allowed c (now ∷ later) =
      let (c', granted) = check_rate_limit R max_requests window c ip now in
      (if granted then 1 else 0) + allowed c' later

  incr_self : (r : R.State) (k : Key) → R.count (R.incr r k) k ≡ R.count r k + 1
  incr_self r k = rw (R.count-incr r k k, if_pos (key_dec k k) refl)

  check-count :
      (r : R.State) (now n : ℕ)
      → R.count r (rate_key ip (now / window)) ≡ n
      → (r' : R.State) × (check_rate_limit R max_requests window (some r) ip now
          ≡ (some r', leb (n + 1) max_requests))
        × (R.count r' (rate_key ip (now / window)) ≡ n + 1)
  unfolding check_rate_limit
  check-count r now n e =
      let k = rate_key ip (now / window) in
      let r' = R.incr r k in
      (
        if R.count r' k == 1 then R.expire r' k (window + 1) else r',
        ground (arith, incr_self r k),
        ground (arith, incr_self r k, R.count-expire r' k k (window + 1)),
      )

  allowed-count :
      (r : R.State) (bucket n : ℕ) (times : List ℕ)
      → All (λ t. t / window ≡ bucket) times
      → R.count r (rate_key ip bucket) ≡ n
      → allowed (some r) times ≡ min (length times) (max_requests - n)
  unfolding allowed
  allowed-count r bucket n [] h e = omega arith
  allowed-count r bucket n (t ∷ times) (b, h) e =
      let (r', step, e') = check-count r t n (rw b e) in
      rw step (ground (arith, allowed-count r' bucket (n + 1) times h (rw b at e')))

-- Of the requests of one address in one window, with a counter that starts at zero, exactly the
-- first `max_requests` are allowed.
pub allowed-window :
    (R : Redis) (max_requests window : ℕ) (ip : Text) (r : R.State) (bucket : ℕ) (times : List ℕ)
    → All (λ t. t / window ≡ bucket) times
    → R.count r (rate_key ip bucket) ≡ 0
    → allowed R max_requests window ip (some r) times ≡ min (length times) max_requests
allowed-window R m w ip r bucket times h e =
    omega (arith, allowed-count R m w ip r bucket 0 times h e)
