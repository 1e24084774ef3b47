-- ===== src/Ring/Mpsc/Tests.antt =====
-- Tests of mpsc.rs, and the theorems about it at a concrete ring.
use bypass_io.Prelude.{
  ℕ, ◌<◌, ◌≤◌, ◌≡◌, ◌≢◌, refl, true, false, List, [], ◌∷◌, ◌++◌, none, some, arith, length,
  get_elem?,
}
use bypass_io.Ring.Mpsc.{
  MpscRing, new, loaded, at_tail, System, set_producer, Produce, Consume, value_at, slot_of,
  store_value, store_ready, drop_slots, begin, room, win, write, publish, start, some_reserved,
  see_ready, take, clear, advance, Reach, fresh, produce, consume,
}
use bypass_io.Ring.Mpsc.Invariant.{ticket}
use bypass_io.Ring.Mpsc.Safety.{accepted-returned, slots_exclusive, read_written}
use bypass_io.Ring.Mpsc.Runs.{PushEnds, PopEnds}
use bypass_io.Ring.Mpsc.Progress.{Pushed, Popped, push_alone, pop_alone}

abbrev two_slots : MpscRing ℕ
two_slots = record {
  head = 0;
  tail = 0;
  slots = record { ready = false; value = none } ∷ record { ready = false; value = none } ∷ [];
  mask = 1;
}

made : new 2 ≡ some two_slots
unfolding new
made = refl

-- `drops_published_items`
drops_published :
    drop_slots {T = ℕ}
      (record { ready = true; value = some 7 } ∷ record { ready = false; value = none } ∷ [])
    ≡ some (7 ∷ [])
unfolding drop_slots
drops_published = refl

-- Two producers have reserved a ticket each.
abbrev both : (s : System ℕ) × Reach two_slots s
both = (
  _,
  produce 1
      (produce 1
        (produce 1
          (produce 0 (produce 0 (produce 0 fresh (begin 7 refl)) (room 7 0 refl refl))
            (win 7 0 refl refl))
          (begin 8 refl))
        (room 8 1 refl refl))
      (win 8 1 refl refl),
)

-- The first has published its item, the second has not.
abbrev one_ready : (s : System ℕ) × Reach two_slots s
unfolding store_value store_ready
one_ready = (_, produce 0 (produce 0 both.1 (write 7 0 refl (omega arith))) (publish 7 0 refl))

apart : ◌≢◌ {A = ℕ} 0 2
apart e = cc

-- The consumer is about to read it.
abbrev reading : (s : System ℕ) × Reach two_slots s
unfolding store_value store_ready
reading = (
  _,
  consume (consume (consume one_ready.1 (start refl)) (some_reserved 0 refl apart))
      (see_ready 0 refl (omega arith) refl),
)

-- The consumer has returned it.
abbrev one_popped : (s : System ℕ) × Reach two_slots s
unfolding store_value store_ready
one_popped = (
  _,
  consume (consume (consume reading.1 (take 0 7 refl refl)) (clear 0 7 refl)) (advance 0 7 refl),
)

accepted-returned_example :
    (pending : List ℕ) × (one_popped.0.accepted ≡ one_popped.0.returned ++ pending)
    × (length pending ≤ 2)
unfolding store_value store_ready
accepted-returned_example =
    accepted-returned 2 two_slots one_popped.0 made one_popped.1 (omega arith)

slots_exclusive_example :
    (slot_of both.0.ring 0 < 2)
    × (slot_of both.0.ring 1 < 2)
    × (slot_of both.0.ring 0 ≢ slot_of both.0.ring 1)
slots_exclusive_example =
    slots_exclusive 2 two_slots both.0 0 1 0 1 made both.1 (omega arith) (λ e. absurd (omega arith))
      refl refl

read_written_example :
    (item : ℕ) × (value_at reading.0.ring.slots (slot_of reading.0.ring 0) ≡ some item)
    × (get_elem? reading.0.accepted (length reading.0.returned) ≡ some item)
    × ((i u : ℕ)
        → ticket (reading.0.producers i) ≡ some u
        → slot_of reading.0.ring u ≢ slot_of reading.0.ring 0)
unfolding store_value store_ready
read_written_example = read_written 2 two_slots reading.0 0 made reading.1 (omega arith) refl

push_alone_example :
    Produce 2 one_popped.0 (set_producer one_popped.0 2 (loaded 9 2))
    × PushEnds (Pushed 2 one_popped.0 2 9) 2 (set_producer one_popped.0 2 (loaded 9 2))
unfolding store_value store_ready
push_alone_example = push_alone 2 two_slots one_popped.0 2 9 made one_popped.1 (omega arith) refl

pop_alone_example :
    Consume one_ready.0 (record one_ready.0 { consumer = at_tail 0 })
    × PopEnds (Popped 2 one_ready.0) (record one_ready.0 { consumer = at_tail 0 })
unfolding store_value store_ready
pop_alone_example = pop_alone 2 two_slots one_ready.0 made one_ready.1 (omega arith) refl
