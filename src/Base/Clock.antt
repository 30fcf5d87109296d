-- ===== src/Base/Clock.antt =====
-- `time.Time` as the nanoseconds since its zero value, 1 January of the year 1.
use mathlib.Core.Bool.{Bool}
use Prim.Native.Nat.{ℕ, ◌+◌, ◌-◌, ◌*◌, ◌%◌, ◌^◌}
use observant_agent.Base.Decimal.{ℤ, pos, negsuc}
use observant_agent.Base.Tests.{◌==◌, ltb, if◌then◌else◌}

-- Moments before the zero value do not occur: the agent takes its times from `time.Now`.
abbrev pub Time : Type 0
Time = ℕ

abbrev pub is_zero : Time → Bool
is_zero t = t == 0

-- The Unix epoch, in nanoseconds since the zero value.
abbrev pub unix_epoch : ℕ
unix_epoch = 62_135_596_800_000_000_000

-- The int64 that has the given bit pattern.
abbrev pub to_int64 : ℕ → ℤ
to_int64 w = if ltb w (2 ^ 63) then pos w else negsuc (2 ^ 64 - 1 - w)

-- `t.UnixNano()`, which wraps as an int64 does; four times 2^64 keeps the difference positive.
unfoldable pub unix_nano : Time → ℤ
unix_nano t = to_int64 ((t + 4 * 2 ^ 64 - unix_epoch) % 2 ^ 64)
