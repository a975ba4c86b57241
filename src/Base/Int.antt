-- ===== src/Base/Int.antt =====
-- Python's `int` where it may be negative, and times in microseconds.
use Prim.Native.Nat.{ℕ, ◌+◌, ◌-◌, ◌*◌, ◌/◌}
use sd_practice_qr_code_gene.Base.Tests.{leb, ◌==◌, if◌then◌else◌}

-- `negsuc n` is -(n + 1).
pub data ℤ : Type 0 where
  pos : ℕ → ℤ
  negsuc : ℕ → ℤ

-- `int(seconds)` of the time from `now` to `t`, which rounds towards zero.
unfoldable pub seconds_until : ℕ → ℕ → ℤ
seconds_until t now =
    if leb now t
    then pos ((t - now) / 1000000)
    else let n = (now - t) / 1000000 in if n == 0 then pos 0 else negsuc (n - 1)

-- `now + seconds`; a sum before time 0 is put at 0.
unfoldable pub after_seconds : ℕ → ℤ → ℕ
after_seconds now (pos n) = now + n * 1000000
after_seconds now (negsuc n) = now - (n + 1) * 1000000
