-- ===== src/Ring/Spsc/Tests.antt =====
-- Tests of spsc.rs, and the theorems about it at concrete rings.
use bypass_io.Prelude.{
  ℕ, zero, suc, ◌+◌, ◌%◌, ◌^◌, get_elem?, ◌≡◌, refl, List, [], ◌∷◌, none, some, ok, err, arith,
}
use bypass_io.Ring.Queue
use bypass_io.Ring.Queue.{Op, put, get, Reply, pushed, popped}
use bypass_io.Ring.Spsc.{SpscRing, new, run, drop}
use bypass_io.Ring.Spsc.Refine.{Holds}
use bypass_io.Ring.Spsc.Client.{run_refines, drop_lem}

abbrev two_slots : SpscRing ℕ
two_slots = record { head = 0; tail = 0; buf = none ∷ none ∷ []; mask = 1 }

two_slots-Holds : Holds 1 two_slots []
two_slots-Holds = record {
  small = omega arith;
  masked = refl;
  sized = refl;
  tail_word = omega arith;
  counted = refl;
  fits = omega arith;
  slots = λ i x e. cc;
}

-- The counters have wrapped between the two items: `head` is 1 and `tail` the last word.
abbrev wrapped : SpscRing ℕ
wrapped = record { head = 1; tail = 0xffff_ffff_ffff_ffff; buf = some 8 ∷ some 7 ∷ []; mask = 1 }

wrapped_slots :
    (i x : ℕ)
    → get_elem? (7 ∷ 8 ∷ []) i ≡ some x
    → get_elem? wrapped.buf ((wrapped.tail + i) % 2 ^ 1) ≡ some (some x)
wrapped_slots zero x e = cc
wrapped_slots (suc zero) x e = cc
wrapped_slots (suc (suc i)) x e = absurd (cc)

wrapped-Holds : Holds 1 wrapped (7 ∷ 8 ∷ [])
wrapped-Holds = record {
  small = omega arith;
  masked = refl;
  sized = refl;
  tail_word = omega arith;
  counted = refl;
  fits = omega arith;
  slots = wrapped_slots;
}

abbrev script : List (Op ℕ)
script = put 1 ∷ put 2 ∷ put 3 ∷ get ∷ put 3 ∷ get ∷ get ∷ get ∷ []

-- `reports_full_without_losing_item`
reports_full :
    run two_slots script
    ≡ some (
        pushed (ok tt)
        ∷ pushed (ok tt)
        ∷ pushed (err 3)
        ∷ popped (some 1)
        ∷ pushed (ok tt)
        ∷ popped (some 2)
        ∷ popped (some 3)
        ∷ popped none
        ∷ [])
unfolding run bypass_io.Ring.Spsc.push bypass_io.Ring.Spsc.pop
reports_full = refl

run_refines_example : run wrapped script ≡ some (Queue.run 2 (7 ∷ 8 ∷ []) script)
run_refines_example = run_refines script wrapped-Holds

drop_lem_example : (r : SpscRing ℕ) × (drop 3 wrapped ≡ some (7 ∷ 8 ∷ [], r)) × Holds 1 r []
drop_lem_example = drop_lem (7 ∷ 8 ∷ []) 3 wrapped-Holds (omega arith)
