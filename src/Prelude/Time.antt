-- ===== src/Prelude/Time.antt =====
-- Times as nanoseconds since Go's zero time, and durations in nanoseconds.
use Prim.Native.Nat.{ℕ, ◌*◌, ◌/◌}

-- t.Truncate(time.Microsecond)
abbrev pub truncate : ℕ → ℕ
truncate t = t / 1000 * 1000

-- n * time.Minute, n * time.Hour
abbrev pub minutes : ℕ → ℕ
minutes n = n * 60000000000

abbrev pub hours : ℕ → ℕ
hours n = n * 3600000000000
