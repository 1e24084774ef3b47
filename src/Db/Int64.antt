-- ===== src/Db/Int64.antt =====
-- The order of `i64`, on two's complement bits: the sign bit is flipped, and then the bits compare
-- as numbers do.
use bypass_io.Prelude.{
  ℕ, ◌+◌, ◌%◌, ◌^◌, Bool, Option, none, some, List, [], ◌∷◌, ltb, leb, if◌then◌else◌,
}

abbrev pub i64_key : ℕ → ℕ
i64_key x = (x + 2 ^ 63) % 2 ^ 64

abbrev pub i64_lt : ℕ → ℕ → Bool
i64_lt a b = ltb (i64_key a) (i64_key b)

abbrev pub i64_le : ℕ → ℕ → Bool
i64_le a b = leb (i64_key a) (i64_key b)

-- `iter().min()` and `iter().max()` of `i64` values.
unfoldable pub i64_min : List ℕ → Option ℕ
i64_min [] = none
i64_min (x ∷ xs) = elim (i64_min xs) [
  | none ↦ some x
  | some m ↦ if i64_le x m then some x else some m
]

unfoldable pub i64_max : List ℕ → Option ℕ
i64_max [] = none
i64_max (x ∷ xs) = elim (i64_max xs) [
  | none ↦ some x
  | some m ↦ if i64_lt m x then some x else some m
]
