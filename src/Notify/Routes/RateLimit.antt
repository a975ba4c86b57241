-- ===== src/Notify/Routes/RateLimit.antt =====
-- `_check_rate_limit` of notification_system/app/routes.py: a counter in Redis for each user and
-- window. The commands are at one instant, and no counter lapses within its window.
pub mod Keys
pub mod Windows
use sd_practice_qr_code_gene.Base.{ℕ, suc, ◌/◌, ◌<◌, Bool, ◌++◌, ◌≡◌, ite, leb, ◌==◌, if◌then◌else◌}
use sd_practice_qr_code_gene.Base.Text.{Text, codes, text_dec}
use sd_practice_qr_code_gene.Base.Decimal.{decimal}

-- `count s k` is the counter under a key, zero where there is none.
pub record Counters : Type 1 where
  pub State : Type 0
  pub count : State → Text → ℕ
  pub incr : State → Text → State × ℕ
  pub expire : State → Text → ℕ → State
  pub incr_answer : (s : State) (k : Text) → (incr s k).1 ≡ suc (count s k)
  pub count-incr :
      (s : State) (k j : Text)
      → count (incr s k).0 j ≡ ite (text_dec k j) (suc (count s k)) (count s j)
  pub count-expire : (s : State) (k j : Text) (t : ℕ) → 0 < t → count (expire s k t) j ≡ count s j

-- RATE_LIMIT_PER_USER and RATE_LIMIT_WINDOW_S
pub record Limits : Type 0 where
  pub per_user : ℕ
  pub window : ℕ

-- f"ratelimit:{user_id}:{bucket}"
unfoldable pub rate_limit_key : Text → ℕ → Text
rate_limit_key user_id bucket = codes "ratelimit:" ++ user_id ++ codes ":" ++ decimal bucket

module _ (C : Counters) (lim : Limits) where
  -- `secs` is `int(time.time())`.
  unfoldable pub check_rate_limit : C.State → Text → ℕ → C.State × Bool
  check_rate_limit s user_id secs =
      let key = rate_limit_key user_id (secs / lim.window) in
      let (counted, count) = C.incr s key in
      let s' = if count == 1 then C.expire counted key lim.window else counted in
      (s', leb count lim.per_user)
