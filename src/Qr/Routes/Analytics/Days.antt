-- ===== src/Qr/Routes/Analytics/Days.antt =====
-- `GROUP BY` and the total agree.
use sd_practice_qr_code_gene.Base.{
  ℕ, suc, ◌+◌, ◌/◌, List, [], ◌∷◌, ◌==◌, ◌≡◌, ◌≢◌, if◌then◌else◌, ite, refl, arith, All,
}
use sd_practice_qr_code_gene.Base.Text.{Text, text_dec}
use sd_practice_qr_code_gene.Qr.Service.{ScanEvent}
use sd_practice_qr_code_gene.Qr.Routes.Analytics.{add_day, count_scans, scans_by_day}

-- The sum of the counts.
pub total : List (ℕ × ℕ) → ℕ
total [] = 0
total ((d, n) ∷ days) = n + total days

-- What is listed for one day.
pub listed : ℕ → List (ℕ × ℕ) → ℕ
listed day [] = 0
listed day ((d, n) ∷ days) = (if d == day then n else 0) + listed day days

-- The scans of a token on one day.
pub count_on : Text → ℕ → List ScanEvent → ℕ
count_on token day [] = 0
count_on token day (e ∷ es) =
    ite (text_dec e.token token) (if e.scanned_at / 86400000000 == day then 1 else 0) 0
    + count_on token day es

-- No day is listed twice.
abbrev pub OncePerDay : List (ℕ × ℕ) → Type 0
OncePerDay [] = Unit
OncePerDay ((d, n) ∷ days) = All (λ p. p.0 ≢ d) days × OncePerDay days

total-add_day : (day : ℕ) (days : List (ℕ × ℕ)) → total (add_day day days) ≡ suc (total days)
unfolding total add_day
total-add_day day [] = omega arith
total-add_day day ((d, n) ∷ days) = ground (arith, total-add_day day days)

listed-add_day :
    (day other : ℕ) (days : List (ℕ × ℕ))
    → listed other (add_day day days) ≡ (if day == other then 1 else 0) + listed other days
unfolding listed add_day
listed-add_day day other [] = ground arith
listed-add_day day other ((d, n) ∷ days) = ground (arith, listed-add_day day other days)

All-add_day :
    (day d : ℕ) (days : List (ℕ × ℕ))
    → day ≢ d
    → All (λ p. p.0 ≢ d) days
    → All (λ p. p.0 ≢ d) (add_day day days)
unfolding add_day
All-add_day day d [] ne h = (ne, tt)
All-add_day day d ((x, n) ∷ days) ne h = ground (arith, All-add_day day d days ne h.1)

add_day-OncePerDay :
    (day : ℕ) (days : List (ℕ × ℕ)) → OncePerDay days → OncePerDay (add_day day days)
unfolding add_day
add_day-OncePerDay day [] h = (tt, tt)
add_day-OncePerDay day ((d, n) ∷ days) h =
    ground (arith, add_day-OncePerDay day days h.1, All-add_day day d days)

-- The daily counts add up to the total, each day is listed once, and with the number of the scans
-- of the token on that day.
pub scans_by_day-total :
    (token : Text) (es : List ScanEvent)
    → (total (scans_by_day token es) ≡ count_scans token es)
      × OncePerDay (scans_by_day token es)
      × ((day : ℕ) → listed day (scans_by_day token es) ≡ count_on token day es)
unfolding scans_by_day count_scans count_on total listed
scans_by_day-total token [] = (refl, tt, λ day. refl)
scans_by_day-total token (e ∷ es) =
    let (sum, once, each) = scans_by_day-total token es in
    let day' = e.scanned_at / 86400000000 in
    let rest = scans_by_day token es in
    (
      ground (arith, total-add_day day' rest),
      ground (arith, add_day-OncePerDay day' rest once),
      λ day. ground (arith, listed-add_day day' day rest, each day),
    )
