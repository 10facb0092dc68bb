-- ===== src/Prelude/Word.antt =====
-- `int64` arithmetic: the integers wrap round at 64 bits.
use nodelume.Prelude.{ℕ, ◌-◌, ◌%◌, ◌^◌, ◌<◌, ◌≡◌, arith, ltb, if◌then◌else◌}
use nodelume.Prelude.Int.{ℤ, pos, negsuc}

-- The 64 bits of an integer, and the integer that 64 bits stand for.
abbrev pub to_word : ℤ → ℕ
to_word (pos n) = n % 2 ^ 64
to_word (negsuc n) = 2 ^ 64 - 1 - n % 2 ^ 64

abbrev pub of_word : ℕ → ℤ
of_word w = if ltb w (2 ^ 63) then pos w else negsuc (2 ^ 64 - 1 - w)

abbrev pub wrap64 : ℤ → ℤ
wrap64 z = of_word (to_word z)

pub wrap64_pos : (n : ℕ) → n < 2 ^ 63 → wrap64 (pos n) ≡ pos n
wrap64_pos n h = ground arith
