-- ===== src/Ring/Mpsc/Invariant/Writing.antt =====
-- The write of the item by `push` of bypass-io/src/ring/mpsc.rs keeps the invariant.
use bypass_io.Prelude.{
  ℕ, ◌+◌, ◌%◌, ◌^◌, ◌≤◌, ◌<◌, ◌≡◌, ◌≢◌, refl, sym, ap, subst, ◌∙◌, true, inl, inr, List, some,
  arith, length, Bool-cases, ◌==◌,
}
use bypass_io.Ring.Mpsc.Slots.{length-store_value, store_value-at, window-ne}
use bypass_io.Ring.Mpsc.{
  MpscRing, Producer, idle, loaded, checked, reserved, written, Consumer, waiting, at_tail,
  nonempty, readable, taken, cleared, System, update, store_value, slot_of,
}
use bypass_io.Ring.Mpsc.Invariant.{
  ticket, Held, Fine, Sees, Inv, update-All, slot_of-mod, slot_of-lt,
}

module _ {T : Type 0} where
  -- Another producer, after the value of a slot that it does not hold was written.
  Fine-write :
      (k : ℕ) (r : MpscRing T) (accepted : List T) (x t : ℕ) (item : T) (p : Producer T)
      → x < length r.slots
      → x ≡ t % 2 ^ k
      → r.head ≤ r.tail + 2 ^ k
      → (r.tail ≤ t) × (t < r.head)
      → ticket p ≢ some t
      → Fine k r accepted p
      → Fine k (record r { slots = store_value r.slots x item }) accepted p
  Fine-write k r accepted x t item idle lt same lap mine other h = tt
  Fine-write k r accepted x t item (loaded y g) lt same lap mine other h = h
  Fine-write k r accepted x t item (checked y g) lt same lap mine other h = h
  Fine-write k r accepted x t item (reserved y g) lt same lap mine other h =
      (h.0, h.1, (store_value-at r.slots x (g % 2 ^ k) item lt).0 ∙ h.2, h.3)
  Fine-write k r accepted x t item (written y g) lt same lap mine other h =
      let at = store_value-at r.slots x (g % 2 ^ k) item lt in
      let apart : t % 2 ^ k ≢ g % 2 ^ k =
        window-ne (2 ^ k) r.tail t g mine.0 (omega (arith, mine.1)) h.0.0 (omega (arith, h.0.1))
          (λ e. other (ap some (sym e))) in
      ((h.0.0, h.0.1, at.0 ∙ h.0.2, h.0.3), ground (arith, at.1, same, apart, h.1))

  Sees-write :
      (k : ℕ) (r : MpscRing T) (f : ℕ → Producer T) (i x t : ℕ) (item : T) (accepted : List T)
      (c : Consumer T)
      → x < length r.slots
      → ticket (f i) ≡ some t
      → Sees k r f accepted c
      → Sees k
          (record r { slots = store_value r.slots x item })
          (update f i (written item t))
          accepted
          c
  Sees-write k r f i x t item accepted waiting lt held h = tt
  Sees-write k r f i x t item accepted (at_tail g) lt held h = h
  Sees-write k r f i x t item accepted (nonempty g) lt held h = h
  Sees-write k r f i x t item accepted (readable g) lt held h =
      (h.0, h.1, (store_value-at r.slots x (g % 2 ^ k) item lt).0 ∙ h.2)
  Sees-write k r f i x t item accepted (taken g y) lt held h =
      (h.0, h.1, (store_value-at r.slots x (g % 2 ^ k) item lt).0 ∙ h.2, h.3)
  Sees-write k r f i x t item accepted (cleared g y) lt held h = (
    h.0,
    h.1,
    (store_value-at r.slots x (g % 2 ^ k) item lt).0 ∙ h.2,
    h.3,
    update-All (λ q. ticket q ≢ some g) f i (written item t) (λ e. h.4 i (held ∙ e))
        (λ j ne. h.4 j),
  )

  -- Writing keeps the tickets of all producers.
  ticket-update :
      (f : ℕ → Producer T) (i : ℕ) (p : Producer T) (j : ℕ)
      → ticket p ≡ ticket (f i)
      → ticket (update f i p j) ≡ ticket (f j)
  ticket-update f i p j e = elim (Bool-cases (i == j)) [
    | inl h ↦ rw h (e ∙ ap (λ a. ticket (f a)) (here j h))
    | inr h ↦ rw h refl
  ]
    where
      here : (j : ℕ) → (i == j) ≡ true → i ≡ j
      here j h = ground arith

  pub write-Inv :
      (k : ℕ) (s : System T) (i : ℕ) (item : T) (t : ℕ)
      → Inv k s
      → s.producers i ≡ reserved item t
      → Inv k (record s {
        ring = record s.ring { slots = store_value s.ring.slots (slot_of s.ring t) item };
        producers = update s.producers i (written item t);
      })
  write-Inv k s i item t inv at = record {
    small = inv.small;
    masked = inv.masked;
    sized = length-store_value s.ring.slots (slot_of s.ring t) item ∙ inv.sized;
    bounded = inv.bounded;
    heads = inv.heads;
    tails = inv.tails;
    below = inv.below;
    within = inv.within;
    pending = inv.pending;
    split = inv.split;
    published = λ j low high shown.
        let stored = store_value-at s.ring.slots (slot_of s.ring t) (j % 2 ^ k) item inside in
        let (a, value, here) = inv.published j low high (sym stored.0 ∙ shown) in
        (a, ground (arith, stored.0, stored.1, value, place, held.2, shown), here);
    fine =
        update-All
          (Fine k (record s.ring { slots = store_value s.ring.slots (slot_of s.ring t) item })
            s.accepted)
          s.producers i (written item t)
          (
            (
              held.0,
              held.1,
              (store_value-at s.ring.slots (slot_of s.ring t) (t % 2 ^ k) item inside).0 ∙ held.2,
              held.3,
            ),
            ground (
              arith,
              (store_value-at s.ring.slots (slot_of s.ring t) (t % 2 ^ k) item inside).1,
              place,
            ),
          )
          (λ j ne.
            Fine-write k s.ring s.accepted (slot_of s.ring t) t item (s.producers j) inside place
              inv.within (held.0, held.1) (λ e. ne (inv.distinct i j t mine e)) (inv.fine j));
    distinct = λ a b g x y.
        inv.distinct a b g (sym (ticket-update s.producers i (written item t) a (sym mine)) ∙ x)
          (sym (ticket-update s.producers i (written item t) b (sym mine)) ∙ y);
    sees =
        Sees-write k s.ring s.producers i (slot_of s.ring t) t item s.accepted s.consumer inside
          mine inv.sees;
  }
    where
      inside : slot_of s.ring t < length s.ring.slots
      inside = slot_of-lt k s t inv

      place : slot_of s.ring t ≡ t % 2 ^ k
      place = slot_of-mod k s t inv

      held : Held k s.ring s.accepted item t
      held = subst (Fine k s.ring s.accepted) at (inv.fine i)

      mine : ticket (s.producers i) ≡ some t
      mine = ap ticket at
