-- ===== src/Base/Time.antt =====
-- Instants and durations: a `datetime` is a number of microseconds on one axis (all of the
-- program's instants are aware and in UTC), and so is a `timedelta`.
use Prim.Native.Nat.{ℕ, ◌*◌}

-- timedelta(seconds=n)
abbrev pub seconds : ℕ → ℕ
seconds n = n * 1000000

-- timedelta(days=n)
abbrev pub days : ℕ → ℕ
days n = n * 86400000000
