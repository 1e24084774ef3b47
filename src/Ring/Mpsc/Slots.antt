-- ===== src/Ring/Mpsc/Slots.antt =====
-- Stores to the slots of the ring of many producers, and the slots of the tickets of one lap.
use native.Mathlib.Decide.{dec_lt}
use bypass_io.Prelude.{
  ℕ, zero, suc, ◌+◌, ◌-◌, ◌%◌, ◌≤◌, ◌<◌, ◌≡◌, ◌≢◌, refl, sym, ap, ◌∙◌, Bool, List, [], ◌∷◌, some,
  arith, length, ◌==◌, if◌then◌else◌,
}
use bypass_io.Ring.Slots.{slot-ne}
use bypass_io.Ring.Mpsc.{Slot, store_value, store_ready, ready_at, value_at}

module _ {T : Type 0} where
  pub length-store_value :
      (ss : List (Slot T)) (i : ℕ) (item : T) → length (store_value ss i item) ≡ length ss
  unfolding store_value
  length-store_value [] i item = refl
  length-store_value (s ∷ ss) zero item = refl
  length-store_value (s ∷ ss) (suc i) item = ap suc (length-store_value ss i item)

  pub length-store_ready :
      (ss : List (Slot T)) (i : ℕ) (b : Bool) → length (store_ready ss i b) ≡ length ss
  unfolding store_ready
  length-store_ready [] i b = refl
  length-store_ready (s ∷ ss) zero b = refl
  length-store_ready (s ∷ ss) (suc i) b = ap suc (length-store_ready ss i b)

  -- The flag and the value at `j` after a store at `i`.
  pub store_value-at :
      (ss : List (Slot T)) (i j : ℕ) (item : T)
      → i < length ss
      → (ready_at (store_value ss i item) j ≡ ready_at ss j)
        × (value_at (store_value ss i item) j ≡ (if i == j then some item else value_at ss j))
  unfolding store_value
  store_value-at [] i j item h = absurd (omega arith)
  store_value-at (s ∷ ss) zero zero item h = (refl, refl)
  store_value-at (s ∷ ss) zero (suc j) item h = (refl, ground arith)
  store_value-at (s ∷ ss) (suc i) zero item h = (refl, ground arith)
  store_value-at (s ∷ ss) (suc i) (suc j) item h =
      let rest = store_value-at ss i j item (omega arith) in (rest.0, ground (arith, rest.1))

  pub store_ready-at :
      (ss : List (Slot T)) (i j : ℕ) (b : Bool)
      → i < length ss
      → (ready_at (store_ready ss i b) j ≡ (if i == j then b else ready_at ss j))
        × (value_at (store_ready ss i b) j ≡ value_at ss j)
  unfolding store_ready
  store_ready-at [] i j b h = absurd (omega arith)
  store_ready-at (s ∷ ss) zero zero b h = (refl, refl)
  store_ready-at (s ∷ ss) zero (suc j) b h = (ground arith, refl)
  store_ready-at (s ∷ ss) (suc i) zero b h = (ground arith, refl)
  store_ready-at (s ∷ ss) (suc i) (suc j) b h =
      let rest = store_ready-at ss i j b (omega arith) in (ground (arith, rest.0), rest.1)

-- Two tickets of one lap have different slots.
pub window-ne : (p t i j : ℕ) → t ≤ i → i < t + p → t ≤ j → j < t + p → i ≢ j → i % p ≢ j % p
window-ne p t i j ti ip tj jp ne e = elim (dec_lt i j) [
  | yes below ↦
      slot-ne p i 0 (j - i) (omega arith) (omega arith) (here i ∙ e ∙ there i j (omega arith))
  | no over ↦
      slot-ne p j 0 (i - j) (omega arith) (omega arith) (here j ∙ sym e ∙ there j i (omega arith))
]
  where
    here : (a : ℕ) → (a + 0) % p ≡ a % p
    here a = ap (λ (x : ℕ). x % p) (omega arith)

    there : (a b : ℕ) → a ≤ b → b % p ≡ (a + (b - a)) % p
    there a b h = ap (λ (x : ℕ). x % p) (omega arith)
