-- ===== src/Ring/Slots.antt =====
-- Slot numbers of a ring of `2 ^ k` slots that 64-bit counters run round.
use native.Mathlib.Nat.{
  mod-lt, mod-add-mod, mod-eq_of_lt, mod-eq-sub-mod, pow-le-pow_right, one-le-pow,
}
use native.Mathlib.Decide.{dec_lt}
use bypass_io.Prelude.{
  ℕ, suc, ◌+◌, ◌-◌, ◌%◌, ◌^◌, ◌≤◌, ◌<◌, ◌≡◌, ◌≢◌, sym, ap, ◌∙◌, arith, wrapping_add, wrapping_sub,
}
use bypass_io.Prelude.Masks.{mod-pow-mod}

-- Fewer than `p` steps from a remainder do not come back to it.
step-mod-ne : (p r d : ℕ) → r < p → 0 < d → d < p → (r + d) % p ≢ r
step-mod-ne p r d hr hd hp e = elim (dec_lt (r + d) p) [
  | yes below ↦ omega (arith, mod-eq_of_lt {n = r + d} {m = p} below)
  | no over ↦ omega (
    arith,
    mod-eq-sub-mod {n = r + d} {m = p} (omega arith),
    mod-eq_of_lt {n = r + d - p} {m = p} (omega arith),
  )
]

-- Two positions less than a lap apart have different slots.
pub slot-ne : (p t i j : ℕ) → i < j → j < i + p → (t + i) % p ≢ (t + j) % p
slot-ne p t i j lt near e =
    step-mod-ne p ((t + i) % p) (j - i) (mod-lt (t + i) (omega arith)) (omega arith) (omega arith)
      (mod-add-mod (t + i) p (j - i) ∙ shifted ∙ sym e)
  where
    shifted : (t + i + (j - i)) % p ≡ (t + j) % p
    shifted = ap (λ (x : ℕ). x % p) (omega arith)

pub slots-lt : (k : ℕ) → k < 64 → 2 ^ k ≤ 2 ^ 63
slots-lt k h = pow-le-pow_right {n = 2} (omega arith) {i = k} {j = 63} (omega arith)

pub slots_pos : (k : ℕ) → 0 < 2 ^ k
slots_pos k = one-le-pow k 2 (omega arith)

-- The slot of a counter that has wrapped is the slot of the position.
pub slot_of_wrapped : (k x : ℕ) → k < 64 → x % 2 ^ 64 % 2 ^ k ≡ x % 2 ^ k
slot_of_wrapped k x h = mod-pow-mod x k 64 (omega arith)

-- The distance between the counters, whether or not one of them has wrapped.
pub wrapping_sub_of_count :
    (h t n : ℕ) → t < 2 ^ 64 → n < 2 ^ 64 → (t + n) % 2 ^ 64 ≡ h → wrapping_sub h t ≡ n
wrapping_sub_of_count h t n ht hn e = omega arith

pub slot_of_next : (k t i : ℕ) → k < 64 → (wrapping_add t 1 + i) % 2 ^ k ≡ (t + suc i) % 2 ^ k
slot_of_next k t i h =
    sym (mod-add-mod (wrapping_add t 1) (2 ^ k) i)
    ∙ ap (λ (x : ℕ). (x + i) % 2 ^ k) (slot_of_wrapped k (t + 1) h)
    ∙ mod-add-mod (t + 1) (2 ^ k) i
    ∙ ap (λ (x : ℕ). x % 2 ^ k) (omega arith)
