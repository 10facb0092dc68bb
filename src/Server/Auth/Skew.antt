-- ===== src/Server/Auth/Skew.antt =====
-- The test of the clock skew, and the timestamps that slip through it.
use nodelume.Prelude.{ℕ, ◌+◌, ◌-◌, ◌^◌, ◌<◌, ◌≡◌, false, ◌||◌, arith, ltb}
use nodelume.Prelude.Int.{pos, negsuc, ◌-ℤ◌}
use nodelume.Server.Auth.{abs64, is_skewed}

-- For the timestamps of the years after 1970 the test is exact: a time is refused when it is more
-- than 60 seconds from the server's.
pub is_skewed-exact :
    (now t : ℕ)
    → now < 2 ^ 62
    → t < 2 ^ 62
    → is_skewed now (pos t) ≡ ltb (t + 60) now || ltb (now + 60) t
unfolding is_skewed abs64 ◌-ℤ◌
is_skewed-exact now t h k = ground arith

-- The timestamp that is 2^63 seconds before the server's time passes: the difference wraps round to
-- the least `int64`, whose absolute value in Go is itself.
pub is_skewed-wraps : (now : ℕ) → now < 2 ^ 62 → is_skewed now (negsuc (2 ^ 63 - 1 - now)) ≡ false
unfolding is_skewed abs64 ◌-ℤ◌
is_skewed-wraps now h = ground arith
