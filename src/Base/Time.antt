-- ===== src/Base/Time.antt =====
-- Instants and durations of Go's time package. An instant counts the nanoseconds since year 1, the
-- zero `time.Time`; `now - t` is `time.Since(t)`, which the program compares with positive durations
-- alone, so a difference below zero may stop at zero.
use Prim.Native.Nat.{ℕ, ◌*◌}

abbrev pub seconds : ℕ → ℕ
seconds n = n * 1000000000

abbrev pub minutes : ℕ → ℕ
minutes n = n * 60000000000

abbrev pub hours : ℕ → ℕ
hours n = n * 3600000000000

-- A signed number; `negsuc n` is -(n + 1).
pub data ℤ : Type 0 where
  pos : ℕ → ℤ
  negsuc : ℕ → ℤ
