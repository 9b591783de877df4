-- ===== src/Segment/Multiple.antt =====
-- nearestMultiple.
use aphros.Base.{ℕ, ◌+◌, ◌%◌, ◌^◌, ◌≤◌, ◌<◌, ◌≡◌, ◌/◌, ◌*◌, arith}
use aphros.Result.{ok}
use aphros.Segment.{nearest_multiple}

-- For a positive `j` below 2 ^ 64 and a positive `k`, the result is the greatest multiple of `k` that
-- is at most `j`.
pub nearest_multiple_lem :
    (j k : ℕ)
    → 0 < j
    → j < 2 ^ 64
    → 0 < k
    → (m : ℕ) × (nearest_multiple j k ≡ ok m) × (m % k ≡ 0) × (m ≤ j) × (j < m + k)
unfolding nearest_multiple
nearest_multiple_lem j k pos fits kpos =
    (j / k * k, ground arith, grind arith, grind arith, grind arith)
