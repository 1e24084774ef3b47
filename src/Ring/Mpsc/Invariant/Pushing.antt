-- ===== src/Ring/Mpsc/Invariant/Pushing.antt =====
-- A step of a producer keeps the invariant.
use bypass_io.Prelude.{
  ℕ, ◌+◌, ◌^◌, ◌≤◌, ◌<◌, ◌≡◌, refl, subst, false, [], ◌∷◌, arith, length, length-append, ◌==◌,
  wrapping_sub,
}
use bypass_io.Ring.Mpsc.{
  idle, loaded, checked, System, Produce, begin, full, room, win, lose, write, publish,
}
use bypass_io.Ring.Mpsc.Invariant.{Fine, Inv, set_producer-Inv}
use bypass_io.Ring.Mpsc.Invariant.Reserving.{win-Inv}
use bypass_io.Ring.Mpsc.Invariant.Writing.{write-Inv}
use bypass_io.Ring.Mpsc.Invariant.Publishing.{publish-Inv}

still_room :
    (h tail head size p : ℕ)
    → h ≡ head
    → tail ≤ head
    → head < 2 ^ 64
    → (wrapping_sub h tail == size) ≡ false
    → size ≡ p
    → head ≤ tail + p
    → head < tail + p
still_room h tail head size p same below bounded apart sized within = ground arith

module _ {T : Type 0} where
  -- Every step of a producer keeps the invariant, as long as the counters do not wrap.
  pub Produce-Inv :
      (k i : ℕ) {s t : System T} → Produce i s t → Inv k s → length t.accepted < 2 ^ 64 → Inv k t
  Produce-Inv k i {s} (begin item e) inv few =
      set_producer-Inv k s i (loaded item s.ring.head) inv (omega arith) refl
  Produce-Inv k i {s} (full item h e e') inv few = set_producer-Inv k s i idle inv tt refl
  Produce-Inv k i {s} (room item h e e') inv few =
      set_producer-Inv k s i (checked item h) inv
        (
          subst (Fine k s.ring s.accepted) e (inv.fine i),
          λ same.
              still_room h s.ring.tail s.ring.head (length s.ring.slots) (2 ^ k) same inv.below
                inv.bounded e' inv.sized inv.within,
        )
        refl
  Produce-Inv k i {s} (win item h e same) inv few =
      win-Inv k s i item h inv e same (omega (arith, length-append s.accepted (item ∷ [])))
  Produce-Inv k i {s} (lose item h e) inv few =
      set_producer-Inv k s i (loaded item s.ring.head) inv (omega arith) refl
  Produce-Inv k i {s} (write item g e inside) inv few = write-Inv k s i item g inv e
  Produce-Inv k i {s} (publish item g e) inv few = publish-Inv k s i item g inv e
