-- ===== src/Instants.antt =====
-- Instants, as `Date.getTime()` counts them, but in milliseconds from 0000-01-01T00:00:00Z instead
-- of 1970, so that each is a natural number. The services only compare and subtract them, and read
-- their calendar fields.
use coupi.Prelude.{ℕ, ◌+◌, ◌*◌, ◌/◌}

abbrev pub day_ms : ℕ
day_ms = 86400000

abbrev pub hour_ms : ℕ
hour_ms = 3600000

-- 1970-01-01T00:00:00Z
abbrev pub epoch : ℕ
epoch = 719528 * 86400000

-- KST_OFFSET_MS
abbrev pub kst_offset_ms : ℕ
kst_offset_ms = 9 * 60 * 60 * 1000

-- The day of an instant in UTC, and in Korea.
abbrev pub utc_day : ℕ → ℕ
utc_day at = at / 86400000

abbrev pub kst_day : ℕ → ℕ
kst_day at = (at + 32400000) / 86400000
