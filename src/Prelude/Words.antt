-- ===== src/Prelude/Words.antt =====
-- Machine words: a uint64_t is a number below 2 ^ 64, an int64_t (long, time_t) is an integer of ℤ.
use donkeycar_gt.Prelude.{ℕ, ◌+◌, ◌-◌, ◌%◌, ◌^◌, ◌≡◌, Bool, ltb, if◌then◌else◌, arith}
use donkeycar_gt.Prelude.Int.{ℤ, pos, negsuc, ◌+ℤ◌}

abbrev pub u64_mod : ℕ
u64_mod = 2 ^ 64

abbrev pub i64_mod : ℕ
i64_mod = 2 ^ 63

-- The conversion of an int64_t to uint64_t.
abbrev pub to_u64 : ℤ → ℕ
to_u64 (pos n) = n % u64_mod
to_u64 (negsuc n) = u64_mod - 1 - n % u64_mod

-- The conversion of a uint64_t to int64_t, on the usual two's complement machine.
abbrev pub to_i64 : ℕ → ℤ
to_i64 w = if ltb w i64_mod then pos w else negsuc (u64_mod - w - 1)

abbrev pub fits_i64 : ℤ → Bool
fits_i64 (pos n) = ltb n i64_mod
fits_i64 (negsuc n) = ltb n i64_mod

pub +ℤ-pos : (a b : ℕ) → pos a +ℤ pos b ≡ pos (a + b)
unfolding ◌+ℤ◌
+ℤ-pos a b = ground arith
