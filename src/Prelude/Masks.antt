-- ===== src/Prelude/Masks.antt =====
-- `index & mask` for a mask of low ones, and reduction by powers of two.
use Prim.Native.Nat.{
  ℕ, zero, suc, ◌+◌, ◌-◌, ◌*◌, ◌/◌, ◌%◌, ◌^◌, ◌≤◌, ◌<◌, ◌∣◌, min, bit_and, digits, bit_and-bitwise,
}
use mathlib.Core.Path.{◌≡◌, sym, ap, ◌∙◌}
use native.Mathlib.Nat.{pow-suc, one-le-pow, dvd-mul_right_of_dvd, mod-mod_of_dvd}
use native.Mathlib.Decide.{dec_le}
use native.Mathlib.Nat.{
  mod-lt, div-add-mod, zero-mod, dvd_refl, mul-add-mod_self_left, mod-eq_of_lt,
}
use native.Mathlib.Omega.{arith}

abbrev low_digits : ℕ → ℕ → ℕ → ℕ
low_digits f a b = digits (λ y. 0) min f a b

-- The remainder by an even number, from the lowest digit and the rest.
mod-double : (a p : ℕ) → 0 < p → a % (2 * p) ≡ 2 * (a / 2 % p) + a % 2
mod-double a p h = omega (
  arith,
  sym (mul-add-mod_self_left (2 * p) (a / 2 / p) (2 * (a / 2 % p) + a % 2)),
  mod-eq_of_lt {n = 2 * (a / 2 % p) + a % 2} {m = 2 * p} (omega (arith, mod-lt (a / 2) h)),
  ap (λ (t : ℕ). t % (2 * p)) whole,
)
  where
    whole : 2 * p * (a / 2 / p) + (2 * (a / 2 % p) + a % 2) ≡ a
    whole = omega (arith, div-add-mod (a / 2) p)

low_digits-mask : (k f a : ℕ) → a ≤ f → low_digits f a (2 ^ k - 1) ≡ a % 2 ^ k
low_digits-mask k zero zero h = omega (arith, zero-mod (2 ^ k))
low_digits-mask k zero (suc a) h = absurd (omega arith)
low_digits-mask k (suc f) zero h = omega (arith, zero-mod (2 ^ k))
low_digits-mask zero (suc f) (suc a) h =
    omega (arith, low_digits-mask zero f (suc a / 2) (omega arith))
low_digits-mask (suc k) (suc f) (suc a) h = omega (
  arith,
  low_digits-mask k f (suc a / 2) (omega arith),
  mod-double (suc a) (2 ^ k) (one-le-pow k 2 (omega arith)),
  pow-suc 2 k,
  one-le-pow k 2,
  ap (λ (t : ℕ). low_digits f (suc a / 2) t) half,
  ap (λ (t : ℕ). suc a % t) twice,
)
  where
    half : (2 ^ suc k - 1) / 2 ≡ 2 ^ k - 1
    half = omega (arith, pow-suc 2 k, one-le-pow k 2 (omega arith))

    twice : 2 ^ suc k ≡ 2 * 2 ^ k
    twice = omega (arith, pow-suc 2 k)

-- A mask of `k` low ones keeps the remainder by `2 ^ k`.
pub bit_and-mask : (a k : ℕ) → bit_and a (2 ^ k - 1) ≡ a % 2 ^ k
bit_and-mask a k = bit_and-bitwise a (2 ^ k - 1) ∙ low_digits-mask k a a (omega arith)

pow-dvd : (j k : ℕ) → j ≤ k → 2 ^ j ∣ 2 ^ k
pow-dvd j zero h = let e : j ≡ zero = omega arith in rw e (dvd_refl (2 ^ zero))
pow-dvd j (suc k) h = elim (dec_le j k) [
  | yes p ↦ rw pow-suc (dvd-mul_right_of_dvd (2 ^ j) (pow-dvd j k p) 2)
  | no p ↦ let e : j ≡ suc k = omega arith in rw e (dvd_refl (2 ^ suc k))
]

pub mod-pow-mod : (a j k : ℕ) → j ≤ k → a % 2 ^ k % 2 ^ j ≡ a % 2 ^ j
mod-pow-mod a j k h = mod-mod_of_dvd (2 ^ j) a (pow-dvd j k h)
