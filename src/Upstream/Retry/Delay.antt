-- ===== src/Upstream/Retry/Delay.antt =====
-- The bounds of the delay between attempts.
use imapped.Base.{ℕ}
use imapped.Base.Int64

abbrev half_range : ℕ
half_range = 0x4000000000000000
