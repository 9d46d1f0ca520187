-- ===== src/Common/Clock.antt =====
-- Instants are microseconds since the epoch, as Python's `datetime` resolves them, and a date is
-- its number of days since the epoch.
use Prim.Native.Nat.{ℕ, ◌*◌, ◌/◌}

abbrev pub seconds : ℕ → ℕ
seconds n = 1_000_000 * n

abbrev pub minutes : ℕ → ℕ
minutes n = 60_000_000 * n

abbrev pub day_length : ℕ
day_length = 86_400_000_000

-- `now.date()`, in UTC.
abbrev pub date_of : ℕ → ℕ
date_of now = now / day_length
