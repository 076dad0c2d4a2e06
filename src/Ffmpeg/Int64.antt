-- ===== src/Ffmpeg/Int64.antt =====
-- Go's int64, as an integer with its wrap-around written out.
use media_processor.Prelude.{ℕ, ◌-◌, ◌%◌, ◌≡◌, arith, ltb, if◌then◌else◌}
use media_processor.Prelude.Int.{ℤ, pos, negsuc, ◌≤ℤ◌, ◌<ℤ◌}

-- The integer in [-2 ^ 63, 2 ^ 63) that is equal to this one modulo 2 ^ 64.
unfoldable pub wrap : ℤ → ℤ
wrap (pos n) =
    let m = n % 18_446_744_073_709_551_616 in
    if ltb m 9_223_372_036_854_775_808 then pos m else negsuc (18_446_744_073_709_551_615 - m)
wrap (negsuc n) =
    let m = n % 18_446_744_073_709_551_616 in
    if ltb m 9_223_372_036_854_775_808 then negsuc m else pos (18_446_744_073_709_551_615 - m)

-- math.MinInt64.
abbrev pub min_int64 : ℤ
min_int64 = negsuc 9_223_372_036_854_775_807

-- The bound of the timestamps that leaves room for repairs.
abbrev pub half_int64 : ℕ
half_int64 = 4_611_686_018_427_387_904

pub wrap_lem : (z : ℤ) → min_int64 ≤ℤ z → z <ℤ pos 9_223_372_036_854_775_808 → wrap z ≡ z
unfolding wrap
wrap_lem (pos n) h k = ground arith
wrap_lem (negsuc n) h k = ground arith
