-- ===== src/Prelude/Words.antt =====
-- Machine words: `usize` (64 bits) arithmetic, and little-endian bytes.
use Prim.Native.Nat.{ℕ, zero, suc, ◌+◌, ◌-◌, ◌*◌, ◌/◌, ◌%◌, ◌^◌, ◌<◌}
use mathlib.Core.Path.{◌≡◌, refl, sym, ap}
use mathlib.Core.Logic.{inl, inr}
use mathlib.Core.Bool.{Bool, true, false, ◌||◌}
use mathlib.Core.Option.{Option, none, some}
use mathlib.Core.List.{List, [], ◌∷◌}
use native.Mathlib.Nat.{pow-succ'}
use native.Mathlib.Omega.{arith}
use bypass_io.Prelude.Tests.{ltb, ◌==◌, if◌then◌else◌, ==_iff, Bool-cases}
use bypass_io.Prelude.Lists.{length}
use bypass_io.Prelude.Predicates.{All}

abbrev pub usize_mod : ℕ
usize_mod = 2 ^ 64

abbrev pub wrapping_add : ℕ → ℕ → ℕ
wrapping_add a b = (a + b) % usize_mod

-- `-` on ℕ stops at 0, so the modulus is added first.
abbrev pub wrapping_sub : ℕ → ℕ → ℕ
wrapping_sub a b = (a + usize_mod - b) % usize_mod

abbrev pub checked_add : ℕ → ℕ → Option ℕ
checked_add a b = if ltb (a + b) usize_mod then some (a + b) else none

abbrev pub checked_mul : ℕ → ℕ → Option ℕ
checked_mul a b = if ltb (a * b) usize_mod then some (a * b) else none

-- `usize::is_power_of_two`: one of the powers that fit in a word.
power_below : ℕ → ℕ → Bool
power_below zero n = false
power_below (suc k) n = 2 ^ k == n || power_below k n

unfoldable pub is_power_of_two : ℕ → Bool
unfolding power_below
is_power_of_two n = power_below 64 n

power_below-eq-true : (b n : ℕ) → power_below b n ≡ true → (k : ℕ) × (k < b) × (n ≡ 2 ^ k)
unfolding power_below
power_below-eq-true zero n h = cc
power_below-eq-true (suc b) n h = elim (Bool-cases (2 ^ b == n)) [
  | inl e ↦ (b, omega arith, sym ((==_iff (2 ^ b) n).0 e))
  | inr e ↦ let (k, lt, eq) = power_below-eq-true b n (rw e at h) in (k, omega arith, eq)
]

pub is_power_of_two-eq-true : (n : ℕ) → is_power_of_two n ≡ true → (k : ℕ) × (k < 64) × (n ≡ 2 ^ k)
unfolding is_power_of_two
is_power_of_two-eq-true n h = power_below-eq-true 64 n h

abbrev pub IsByte : ℕ → Type 0
IsByte b = b < 256

-- `to_le_bytes` of a word of `n` bytes.
unfoldable pub to_le_bytes : ℕ → ℕ → List ℕ
to_le_bytes zero v = []
to_le_bytes (suc n) v = v % 256 ∷ to_le_bytes n (v / 256)

-- `from_le_bytes`.
unfoldable pub from_le_bytes : List ℕ → ℕ
from_le_bytes [] = 0
from_le_bytes (b ∷ bs) = b + 256 * from_le_bytes bs

pub length-to_le_bytes : (n v : ℕ) → length (to_le_bytes n v) ≡ n
unfolding to_le_bytes
length-to_le_bytes zero v = refl
length-to_le_bytes (suc n) v = ap suc (length-to_le_bytes n (v / 256))

pub to_le_bytes-All : (n v : ℕ) → All IsByte (to_le_bytes n v)
unfolding to_le_bytes
to_le_bytes-All zero v = tt
to_le_bytes-All (suc n) v = (omega arith, to_le_bytes-All n (v / 256))

-- A word that fits in `n` bytes is read back from them.
pub from_le_bytes-to_le_bytes : (n v : ℕ) → v < 256 ^ n → from_le_bytes (to_le_bytes n v) ≡ v
unfolding from_le_bytes to_le_bytes
from_le_bytes-to_le_bytes zero v h = omega arith
from_le_bytes-to_le_bytes (suc n) v h =
    omega (arith, from_le_bytes-to_le_bytes n (v / 256) (omega (arith, pow-succ' 256 n)))

pub from_le_bytes-lt : (bs : List ℕ) → All IsByte bs → from_le_bytes bs < 256 ^ length bs
unfolding from_le_bytes
from_le_bytes-lt [] h = omega arith
from_le_bytes-lt (b ∷ bs) h = omega (arith, from_le_bytes-lt bs h.1, pow-succ' 256 (length bs))
