-- ===== src/Qr/Routes/Analytics.antt =====
-- `get_analytics`: the aggregate queries over the scans of one token.
pub mod Days
use sd_practice_qr_code_gene.Base.{ℕ, ◌+◌, ◌/◌, List, [], ◌∷◌, ◌==◌, if◌then◌else◌, ite}
use sd_practice_qr_code_gene.Base.Text.{Text, text_dec}
use sd_practice_qr_code_gene.Qr.Service.{ScanEvent, Database}
use sd_practice_qr_code_gene.Qr.Routes.{Reply, ok, raise, AnalyticsResponse, get_mapping_or_404}

-- The loop of `scans_by_day` and its `GROUP BY`: one more scan on a day.
unfoldable pub add_day : ℕ → List (ℕ × ℕ) → List (ℕ × ℕ)
add_day day [] = (day, 1) ∷ []
add_day day ((d, n) ∷ rest) =
    let later = add_day day rest in if d == day then (d, n + 1) ∷ rest else (d, n) ∷ later

-- `SELECT count(id) … WHERE token = …`
unfoldable pub count_scans : Text → List ScanEvent → ℕ
count_scans token [] = 0
count_scans token (e ∷ es) = ite (text_dec e.token token) 1 0 + count_scans token es

-- `SELECT date(scanned_at), count(id) … GROUP BY date(scanned_at)`
unfoldable pub scans_by_day : Text → List ScanEvent → List (ℕ × ℕ)
scans_by_day token [] = []
scans_by_day token (e ∷ es) =
    let rest = scans_by_day token es in
    ite (text_dec e.token token) (add_day (e.scanned_at / 86400000000) rest) rest

module _ (D : Database) where
  unfoldable pub get_analytics : D.State → Text → Reply AnalyticsResponse
  get_analytics replica token = elim (get_mapping_or_404 D replica token) [
    | raise code ↦ raise code
    | ok m ↦ ok (record {
      token = token;
      total_scans = count_scans token (D.scans replica);
      scans_by_day = scans_by_day token (D.scans replica);
    })
  ]
