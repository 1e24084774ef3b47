-- ===== src/Ring/Spsc.antt =====
-- bypass-io/src/ring/spsc.rs, its calls one after another.
pub mod Refine
pub mod Client
mod Tests
use bypass_io.Prelude.{
  ℕ, zero, suc, ◌-◌, ◌≡◌, Bool, true, false, List, [], ◌∷◌, Option, none, some, Result, ok, err,
  bit_and, length, get_elem?, set, replicate, ltb, ◌==◌, if◌then◌else◌, wrapping_add, wrapping_sub,
  is_power_of_two,
}
use bypass_io.Ring.Queue.{Op, put, get, Reply, pushed, popped}

-- `SpscRing<T>`: `none` is a slot that was never written. The counters are words.
pub record SpscRing {ℓ} (T : Type ℓ) : Type ℓ where
  pub head : ℕ
  pub tail : ℕ
  pub buf : List (Option T)
  pub mask : ℕ

module _ {ℓ} {T : Type ℓ} where
  -- `none` is a panic of one of the assertions.
  unfoldable pub new : ℕ → Option (SpscRing T)
  unfolding is_power_of_two
  new cap =
      if is_power_of_two cap
      then (if ltb 0 cap
          then some (record { head = 0; tail = 0; buf = replicate cap none; mask = cap - 1 })
          else none)
      else none

  unfoldable pub capacity : SpscRing T → ℕ
  capacity r = length r.buf

  unfoldable pub len : SpscRing T → ℕ
  len r = wrapping_sub r.head r.tail

  unfoldable pub is_empty : SpscRing T → Bool
  unfolding len
  is_empty r = len r == 0

  -- `none` is a slot index out of bounds.
  unfoldable pub push : SpscRing T → T → Option (Result T (Unit {0}) × SpscRing T)
  unfolding capacity
  push r item =
      if wrapping_sub r.head r.tail == capacity r
      then some (err item, r)
      else (let index = bit_and r.head r.mask in
          if ltb index (length r.buf)
          then some
              (ok tt, record r { buf = set r.buf index (some item); head = wrapping_add r.head 1 })
          else none)

  -- The bits of a slot are read and stay where they are. `none` is a read of a slot that was never
  -- written, or an index out of bounds.
  unfoldable pub pop : SpscRing T → Option (Option T × SpscRing T)
  pop r =
      if r.tail == r.head then some (none, r) else elim (get_elem? r.buf (bit_and r.tail r.mask)) [
        | some (some item) ↦ some (some item, record r { tail = wrapping_add r.tail 1 })
        | _ ↦ none
      ]

  -- `drop`: pops until the ring is empty. The items that are dropped come back in order; `none` is
  -- a fault of `pop`, or that the fuel ran out.
  unfoldable pub drop : ℕ → SpscRing T → Option (List T × SpscRing T)
  drop zero r = none
  drop (suc fuel) r = elim (pop r) [
    | none ↦ none
    | some (none, r') ↦ some ([], r')
    | some (some x, r') ↦ elim (drop fuel r') [ none ↦ none | some (xs, r'') ↦ some (x ∷ xs, r'') ]
  ]

  -- A client's calls in order; `none` after a fault.
  unfoldable pub run : SpscRing T → List (Op T) → Option (List (Reply T))
  run r [] = some []
  run r (put x ∷ ops) = elim (push r x) [
    | none ↦ none
    | some (s, r') ↦ elim (run r' ops) [ none ↦ none | some l ↦ some (pushed s ∷ l) ]
  ]
  run r (get ∷ ops) = elim (pop r) [
    | none ↦ none
    | some (o, r') ↦ elim (run r' ops) [ none ↦ none | some l ↦ some (popped o ∷ l) ]
  ]
