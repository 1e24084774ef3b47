-- ===== src/Ring/Mpsc/Invariant/Popping.antt =====
-- A step of the consumer keeps the invariant.
use native.Mathlib.Decide.{ℕ_discrete as dec_eq}
use native.Mathlib.Nat.{mod-eq-sub-mod}
use bypass_io.Prelude.{
  ℕ, suc, ◌+◌, ◌%◌, ◌^◌, ◌≤◌, ◌<◌, ◌≡◌, ◌≢◌, refl, sym, ap, ap₂, subst, ◌∙◌, true, false, List, [],
  ◌∷◌, ◌++◌, some, arith, length, length-append, get_elem?, get_elem?-lt, get_elem?-append_right,
  append_assoc, wrapping_add,
}
use bypass_io.Ring.Mpsc.Slots.{length-store_ready, store_ready-at}
use bypass_io.Ring.Mpsc.{
  MpscRing, Producer, idle, loaded, checked, reserved, written, Consumer, waiting, at_tail,
  nonempty, readable, taken, cleared, System, ready_at, value_at, store_ready, slot_of, Consume,
  start, empty, some_reserved, not_ready, see_ready, take, clear, advance,
}
use bypass_io.Ring.Mpsc.Invariant.{ticket, Fine, Sees, Inv, Fine-ticket, slot_of-mod, slot_of-lt}

later : (a b : ℕ) → a ≢ b → a ≤ b → a < b
later a b ne le = ground arith

module _ {T : Type 0} where
  -- A consumer that moves on and changes nothing shared.
  set_consumer-Inv :
      (k : ℕ) (s : System T) (c : Consumer T)
      → Inv k s
      → Sees k s.ring s.producers s.accepted c
      → Inv k (record s { consumer = c })
  set_consumer-Inv k s c inv here = record {
    small = inv.small;
    masked = inv.masked;
    sized = inv.sized;
    bounded = inv.bounded;
    heads = inv.heads;
    tails = inv.tails;
    below = inv.below;
    within = inv.within;
    pending = inv.pending;
    split = inv.split;
    published = inv.published;
    fine = inv.fine;
    distinct = inv.distinct;
    sees = here;
  }

  -- A producer, after a slot was made unreadable.
  Fine-clear :
      (k : ℕ) (r : MpscRing T) (accepted : List T) (x : ℕ) (p : Producer T)
      → x < length r.slots
      → Fine k r accepted p
      → Fine k (record r { slots = store_ready r.slots x false }) accepted p
  Fine-clear k r accepted x idle lt h = tt
  Fine-clear k r accepted x (loaded y g) lt h = h
  Fine-clear k r accepted x (checked y g) lt h = h
  Fine-clear k r accepted x (reserved y g) lt h =
      (h.0, h.1, ground (arith, (store_ready-at r.slots x (g % 2 ^ k) false lt).0, h.2), h.3)
  Fine-clear k r accepted x (written y g) lt h =
      let at = store_ready-at r.slots x (g % 2 ^ k) false lt in
      ((h.0.0, h.0.1, ground (arith, at.0, h.0.2), h.0.3), at.1 ∙ h.1)

  clear-Inv :
      (k : ℕ) (s : System T) (t : ℕ) (item : T)
      → Inv k s
      → Sees k s.ring s.producers s.accepted (taken t item)
      → Inv k (record s {
        ring = record s.ring { slots = store_ready s.ring.slots (slot_of s.ring t) false };
        consumer = cleared t item;
      })
  clear-Inv k s t item inv here = record {
    small = inv.small;
    masked = inv.masked;
    sized = length-store_ready s.ring.slots (slot_of s.ring t) false ∙ inv.sized;
    bounded = inv.bounded;
    heads = inv.heads;
    tails = inv.tails;
    below = inv.below;
    within = inv.within;
    pending = inv.pending;
    split = inv.split;
    published = λ j low high shown.
        let at = store_ready-at s.ring.slots (slot_of s.ring t) (j % 2 ^ k) false inside in
        let (a, value, found) = inv.published j low high (ground (arith, at.0, shown)) in
        (a, at.1 ∙ value, found);
    fine =
        λ i. Fine-clear k s.ring s.accepted (slot_of s.ring t) (s.producers i) inside (inv.fine i);
    distinct = inv.distinct;
    sees = (
      here.0,
      here.1,
      ground (
        arith,
        (store_ready-at s.ring.slots (slot_of s.ring t) (t % 2 ^ k) false inside).0,
        place,
      ),
      here.3,
      λ i e.
          true-ne-false
            (sym here.2 ∙ (Fine-ticket k s.ring s.accepted (s.producers i) t (inv.fine i) e).2),
    );
  }
    where
      inside : slot_of s.ring t < length s.ring.slots
      inside = slot_of-lt k s t inv

      place : slot_of s.ring t ≡ t % 2 ^ k
      place = slot_of-mod k s t inv

      true-ne-false : true ≢ false
      true-ne-false e = cc

  -- A producer whose ticket is not the oldest, after the consumer has moved on.
  Fine-advance :
      (k : ℕ) (r : MpscRing T) (accepted : List T) (p : Producer T) (n : ℕ)
      → n ≡ suc r.tail
      → ticket p ≢ some r.tail
      → Fine k r accepted p
      → Fine k (record r { tail = n }) accepted p
  Fine-advance k r accepted idle n e other h = tt
  Fine-advance k r accepted (loaded y g) n e other h = h
  Fine-advance k r accepted (checked y g) n e other h = (h.0, λ same. omega (arith, h.1 same))
  Fine-advance k r accepted (reserved y g) n e other h = (
    omega (arith, h.0, e, later r.tail g (λ same. other (ap some (sym same))) (omega arith)),
    h.1,
    h.2,
    h.3,
  )
  Fine-advance k r accepted (written y g) n e other h = (
    (
      omega (arith, h.0.0, e, later r.tail g (λ same. other (ap some (sym same))) (omega arith)),
      h.0.1,
      h.0.2,
      h.0.3,
    ),
    h.1,
  )

  -- The oldest item that waits is the one at the end of those returned.
  next_item :
      (front rest : List T) (x : T)
      → get_elem? (front ++ rest) (length front) ≡ some x
      → (tail : List T) × (rest ≡ x ∷ tail)
  next_item front [] x e =
      absurd (omega (arith, get_elem?-lt (front ++ []) (length front) e, length-append front []))
  next_item front (y ∷ rest) x e = (rest, ap (λ a. a ∷ rest) y-eq-x)
    where
      y-eq-x : y ≡ x
      y-eq-x = some_inj' (
          sym (get_elem?-append_right front (y ∷ rest) 0)
          ∙ ap (get_elem? (front ++ (y ∷ rest))) (omega arith)
          ∙ e)
        where
          some_inj' : {a b : T} → some a ≡ some b → a ≡ b
          some_inj' h = cc

  advance-Inv :
      (k : ℕ) (s : System T) (item : T)
      → Inv k s
      → Sees k s.ring s.producers s.accepted (cleared s.ring.tail item)
      → Inv k (record s {
        ring = record s.ring { tail = wrapping_add s.ring.tail 1 };
        consumer = waiting;
        returned = s.returned ++ (item ∷ []);
      })
  advance-Inv k s item inv here = record {
    small = inv.small;
    masked = inv.masked;
    sized = inv.sized;
    bounded = inv.bounded;
    heads = inv.heads;
    tails = omega (arith, next, inv.tails, length-append s.returned (item ∷ []));
    below = omega (arith, next, here.1);
    within = omega (arith, next, inv.within);
    pending = oldest.0;
    split =
        inv.split
        ∙ ap (λ l. s.returned ++ l) oldest.1
        ∙ sym (append_assoc s.returned (item ∷ []) oldest.0);
    published = λ j low high shown. elim (dec_eq j (s.ring.tail + 2 ^ k)) [
      | yes e ↦ absurd (dark j e shown)
      | no ne ↦
          inv.published j (omega (arith, next, low))
            (later j (s.ring.tail + 2 ^ k) ne (omega (arith, next, high))) shown
    ];
    fine = λ i. Fine-advance k s.ring s.accepted (s.producers i) _ next (here.4 i) (inv.fine i);
    distinct = inv.distinct;
    sees = tt;
  }
    where
      next : wrapping_add s.ring.tail 1 ≡ suc s.ring.tail
      next = omega (arith, here.1, inv.bounded)

      oldest : (rest : List T) × (inv.pending ≡ item ∷ rest)
      oldest =
          next_item s.returned inv.pending item
            (ap₂ get_elem? (sym inv.split) (sym inv.tails) ∙ here.3)

      -- The slot that the window gains is the one just released.
      dark : (j : ℕ) → j ≡ s.ring.tail + 2 ^ k → ready_at s.ring.slots (j % 2 ^ k) ≡ true → ⊥
      dark j e shown = true-ne-false (
          sym shown
          ∙ ap (λ n. ready_at s.ring.slots (n % 2 ^ k)) e
          ∙ ap (ready_at s.ring.slots) (lap s.ring.tail)
          ∙ ap (λ n. ready_at s.ring.slots (n % 2 ^ k)) (sym here.0)
          ∙ here.2)
        where
          lap : (t : ℕ) → (t + 2 ^ k) % 2 ^ k ≡ t % 2 ^ k
          lap t =
              mod-eq-sub-mod {n = t + 2 ^ k} {m = 2 ^ k} (omega arith)
              ∙ ap (λ (n : ℕ). n % 2 ^ k) (omega arith)

          true-ne-false : true ≢ false
          true-ne-false q = cc

  abbrev advanced : System T → ℕ → T → System T
  advanced s t item = record s {
    ring = record s.ring { tail = wrapping_add t 1 };
    consumer = waiting;
    returned = s.returned ++ (item ∷ []);
  }

  -- Every step of the consumer keeps the invariant.
  pub Consume-Inv : (k : ℕ) {s t : System T} → Consume s t → Inv k s → Inv k t
  Consume-Inv k {s} (start e) inv = set_consumer-Inv k s (at_tail s.ring.tail) inv refl
  Consume-Inv k {s} (empty t e same) inv = set_consumer-Inv k s waiting inv tt
  Consume-Inv k {s} (some_reserved t e ne) inv =
      let h : t ≡ s.ring.tail = subst (Sees k s.ring s.producers s.accepted) e inv.sees in
      set_consumer-Inv k s (nonempty t) inv
        (h, later s.ring.tail s.ring.head (λ q. ne (h ∙ q)) inv.below)
  Consume-Inv k {s} (not_ready t e lt dark) inv = set_consumer-Inv k s waiting inv tt
  Consume-Inv k {s} (see_ready t e lt shown) inv =
      let h : Sees k s.ring s.producers s.accepted (nonempty t) =
        subst (Sees k s.ring s.producers s.accepted) e inv.sees in
      set_consumer-Inv k s (readable t) inv
        (h.0, h.1, ap (ready_at s.ring.slots) (sym (slot_of-mod k s t inv)) ∙ shown)
  Consume-Inv k {s} (take t item e value) inv =
      let h : Sees k s.ring s.producers s.accepted (readable t) =
        subst (Sees k s.ring s.producers s.accepted) e inv.sees in
      let (a, stored, found) =
        inv.published t (omega (arith, h.0)) (omega (arith, h.0, h.1, inv.within)) h.2 in
      set_consumer-Inv k s (taken t item) inv (
        h.0,
        h.1,
        h.2,
        found ∙ sym stored ∙ ap (value_at s.ring.slots) (sym (slot_of-mod k s t inv)) ∙ value,
      )
  Consume-Inv k {s} (clear t item e) inv =
      clear-Inv k s t item inv (subst (Sees k s.ring s.producers s.accepted) e inv.sees)
  Consume-Inv k {s} (advance t item e) inv =
      let h : Sees k s.ring s.producers s.accepted (cleared t item) =
        subst (Sees k s.ring s.producers s.accepted) e inv.sees in
      subst (λ n. Inv k (advanced s n item)) (sym h.0)
        (advance-Inv k s item inv
          (subst (λ n. Sees k s.ring s.producers s.accepted (cleared n item)) h.0 h))
