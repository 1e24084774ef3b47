-- ===== src/Ring/Spsc/Client.antt =====
-- Whole sequences of calls on a ring, and its `drop`.
use bypass_io.Prelude.{
  ℕ, zero, suc, ◌^◌, ◌<◌, ◌≡◌, refl, List, [], ◌∷◌, some, arith, length, ◌==◌, Bool-cases, inl, inr,
  ==_iff,
}
use bypass_io.Ring.Queue
use bypass_io.Ring.Queue.{Op, put, get, Reply}
use bypass_io.Ring.Spsc.{SpscRing, drop, run}
use bypass_io.Ring.Spsc.Refine.{Holds, push-Holds, push_full, pop-Holds, pop_empty}

module _ {ℓ} {T : Type ℓ} where
  -- A ring that holds a queue answers any sequence of pushes and pops as the FIFO of its capacity
  -- does, and never faults: no index is out of bounds, and no slot is read that was not written.
  pub run_refines :
      (ops : List (Op T)) {k : ℕ} {r : SpscRing T} {q : List T}
      → Holds k r q
      → run r ops ≡ some (Queue.run (2 ^ k) q ops)
  unfolding run Queue.run
  run_refines [] h = refl
  run_refines (put x ∷ ops) {k} {r} {q} h = elim (Bool-cases (length q == 2 ^ k)) [
    | inl full ↦ ground (arith, push_full h x ((==_iff _ _).0 full), run_refines ops h)
    | inr room ↦
        let (r', step, h') = push-Holds h x (ground (arith, h.fits)) in
        ground (arith, step, run_refines ops h')
  ]
  run_refines (get ∷ ops) {q = []} h = ground (arith, pop_empty h, run_refines ops h)
  run_refines (get ∷ ops) {q = x ∷ q} h =
      let (r', step, h') = pop-Holds h in ground (arith, step, run_refines ops h')

  -- Dropping a ring drops each item that it holds, in order, and leaves it empty: one round for
  -- each item and one more are enough.
  pub drop_lem :
      (q : List T) {k : ℕ} {r : SpscRing T} (fuel : ℕ)
      → Holds k r q
      → length q < fuel
      → (r' : SpscRing T) × (drop fuel r ≡ some (q, r')) × Holds k r' []
  unfolding drop
  drop_lem [] zero h lt = absurd (omega arith)
  drop_lem (x ∷ q) zero h lt = absurd (omega arith)
  drop_lem [] {r} (suc fuel) h lt = (r, ground (arith, pop_empty h), h)
  drop_lem (x ∷ q) (suc fuel) h lt =
      let (r', step, h') = pop-Holds h in
      let (r'', rest, h'') = drop_lem q fuel h' (omega arith) in
      (r'', ground (arith, step, rest), h'')
