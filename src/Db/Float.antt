-- ===== src/Db/Float.antt =====
-- What bypass-db/src/scan.rs uses of `f64`, on the 64 bits of a value: IEEE 754 comparisons, and the
-- rounding conversion of an `i64`.
use bypass_io.Prelude.{
  ℕ, zero, suc, ◌+◌, ◌-◌, ◌*◌, ◌/◌, ◌%◌, ◌^◌, ◌==◌, Bool, not, ◌&&◌, ◌||◌, ltb, leb, if◌then◌else◌,
}

unfoldable pub is_nan : ℕ → Bool
is_nan x = ltb (2047 * 2 ^ 52) (x % 2 ^ 63)

-- A number that is ordered as the value is; both zeros have the same.
unfoldable pub f64_key : ℕ → ℕ
f64_key x = if ltb x (2 ^ 63) then 2 ^ 63 + x else 2 ^ 64 - x

unfoldable pub f64_lt : ℕ → ℕ → Bool
unfolding is_nan f64_key
f64_lt a b = not (is_nan a || is_nan b) && ltb (f64_key a) (f64_key b)

unfoldable pub f64_ge : ℕ → ℕ → Bool
unfolding is_nan f64_key
f64_ge a b = not (is_nan a || is_nan b) && leb (f64_key b) (f64_key a)

unfoldable pub f64_gt : ℕ → ℕ → Bool
unfolding f64_lt
f64_gt a b = f64_lt b a

-- The exponent of the highest power of 2 that is at most `n`.
log2_below : ℕ → ℕ → ℕ
log2_below zero n = 0
log2_below (suc k) n = if leb (2 ^ k) n then k else log2_below k n

-- Rounds half to even.
round_shift : ℕ → ℕ → ℕ
round_shift n shift =
    if ltb (2 ^ (shift - 1)) (n % 2 ^ shift)
      || (n % 2 ^ shift == 2 ^ (shift - 1) && n / 2 ^ shift % 2 == 1)
    then n / 2 ^ shift + 1
    else n / 2 ^ shift

magnitude_bits : ℕ → ℕ
unfolding log2_below round_shift
magnitude_bits zero = 0
magnitude_bits (suc m) =
    let k = log2_below 64 (suc m) in
    if leb k 52
    then (k + 1022) * 2 ^ 52 + suc m * 2 ^ (52 - k)
    else (k + 1022) * 2 ^ 52 + round_shift (suc m) (k - 52)

-- `value as f64`
unfoldable pub i64_as_f64 : ℕ → ℕ
unfolding magnitude_bits
i64_as_f64 x = if ltb x (2 ^ 63) then magnitude_bits x else 2 ^ 63 + magnitude_bits (2 ^ 64 - x)
