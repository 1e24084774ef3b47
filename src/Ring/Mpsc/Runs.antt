-- ===== src/Ring/Mpsc/Runs.antt =====
-- Calls of bypass-io/src/ring/mpsc.rs that run alone: the runs of such a call, and where they end.
use native.Mathlib.Decide.{ℕ_discrete as dec_eq}
use bypass_io.Prelude.{
  ℕ, ◌≡◌, ◌≢◌, refl, sym, ap, ◌∙◌, true, false, [], ◌∷◌, ◌++◌, none, some, arith, ◌⊎◌, inl, inr,
  length, subst, ◌==◌, if◌then◌else◌, wrapping_add, wrapping_sub,
}
use bypass_io.Ring.Mpsc.{
  Producer, Consumer, idle, loaded, checked, reserved, written, waiting, at_tail, nonempty,
  readable, taken, cleared, System, set_producer, update, ready_at, value_at, slot_of, store_ready,
  store_value, Produce, begin, full, room, win, lose, write, publish, Consume, start, empty,
  not_ready, some_reserved, see_ready, take, clear, advance,
}

module _ {T : Type 0} where
  -- The weak compare-exchange of producer `i` failed although the head had not moved.
  abbrev pub Spurious : ℕ → System T → System T → Type 0
  Spurious i s t =
      (item : T) × (s.producers i ≡ checked item s.ring.head)
      × (t ≡ set_producer s i (loaded item s.ring.head))

  -- A call of `push` by producer `i` is never stuck when the others stand still, and whatever steps
  -- it takes, without spurious failures it comes to an end after finitely many, where `P` holds.
  pub data PushEnds (P : System T → Type 0) (i : ℕ) : System T → Type 0 where
    over : {s : System T} → s.producers i ≡ idle → P s → PushEnds P i s
    goes :
        {s t : System T}
        → Produce i s t
        → PushEnds P i t
        → ((u : System T) → Produce i s u → ¬ Spurious i s u → PushEnds P i u)
        → PushEnds P i s

  -- A call of `pop` is never stuck when the others stand still, and whatever steps it takes it comes
  -- to an end after finitely many, where `P` holds.
  pub data PopEnds (P : System T → Type 0) : System T → Type 0 where
    over : {s : System T} → s.consumer ≡ waiting → P s → PopEnds P s
    goes :
        {s t : System T} → Consume s t → ((u : System T) → Consume s u → PopEnds P u) → PopEnds P s

  -- The only state after a step within a call of `push`, but for spurious failures, by where the
  -- producer stands.
  unfoldable pub push_next : ℕ → System T → Producer T → System T
  push_next i s idle = s
  push_next i s (loaded item h) =
      if wrapping_sub h s.ring.tail == length s.ring.slots
      then set_producer s i idle
      else set_producer s i (checked item h)
  push_next i s (checked item h) =
      if s.ring.head == h
      then record s {
        ring = record s.ring { head = wrapping_add h 1 };
        producers = update s.producers i (reserved item h);
        accepted = s.accepted ++ (item ∷ []);
      }
      else set_producer s i (loaded item s.ring.head)
  push_next i s (reserved item ticket) = record s {
    ring = record s.ring { slots = store_value s.ring.slots (slot_of s.ring ticket) item };
    producers = update s.producers i (written item ticket);
  }
  push_next i s (written item ticket) = record s {
    ring = record s.ring { slots = store_ready s.ring.slots (slot_of s.ring ticket) true };
    producers = update s.producers i idle;
  }

  push_chosen :
      (i : ℕ) (s : System T) {t : System T} {p : Producer T}
      → s.producers i ≡ p
      → t ≡ push_next i s p
      → t ≡ push_next i s (s.producers i)
  push_chosen i s at same = same ∙ ap (push_next i s) (sym at)

  Produce-next :
      (i : ℕ) (s t : System T)
      → s.producers i ≢ idle
      → Produce i s t
      → Spurious i s t ⊎ (t ≡ push_next i s (s.producers i))
  unfolding push_next
  Produce-next i s t busy (begin item at) = absurd (busy at)
  Produce-next i s t busy (full item h at c) = inr (push_chosen i s at (rw c refl))
  Produce-next i s t busy (room item h at c) = inr (push_chosen i s at (rw c refl))
  Produce-next i s t busy (win item h at same) =
      let here : (s.ring.head == h) ≡ true = ground (arith, same) in
      inr (push_chosen i s at (rw here refl))
  Produce-next i s t busy (lose item h at) = elim (dec_eq s.ring.head h) [
    | yes same ↦ inl (item, at ∙ ap (checked item) (sym same), refl)
    | no apart ↦
        let differs : (s.ring.head == h) ≡ false = ground (arith, apart) in
        inr (push_chosen i s at (rw differs refl))
  ]
  Produce-next i s t busy (write item ticket at inside) = inr (push_chosen i s at refl)
  Produce-next i s t busy (publish item ticket at) = inr (push_chosen i s at refl)

  -- A step to the only next state, from where the producer stands.
  pub push_goes :
      (P : System T → Type 0) (i : ℕ) (s : System T) {t : System T} {p : Producer T}
      → s.producers i ≡ p
      → p ≢ idle
      → t ≡ push_next i s p
      → Produce i s t
      → PushEnds P i t
      → PushEnds P i s
  push_goes P i s at busy same step ends = goes step ends (λ u other sound.
      elim (Produce-next i s u (λ e. busy (sym at ∙ e)) other) [
        | inl failed ↦ absurd (sound failed)
        | inr next ↦ subst (PushEnds P i) (push_chosen i s at same ∙ sym next) ends
      ])

  -- The only state after a step of the consumer, by where it stands.
  pop_next : System T → Consumer T → System T
  pop_next s waiting = record s { consumer = at_tail s.ring.tail }
  pop_next s (at_tail t) =
      if t == s.ring.head
      then record s { consumer = waiting }
      else record s { consumer = nonempty t }
  pop_next s (nonempty t) =
      if ready_at s.ring.slots (slot_of s.ring t)
      then record s { consumer = readable t }
      else record s { consumer = waiting }
  pop_next s (readable t) = elim (value_at s.ring.slots (slot_of s.ring t)) [
    | none ↦ s
    | some item ↦ record s { consumer = taken t item }
  ]
  pop_next s (taken t item) = record s {
    ring = record s.ring { slots = store_ready s.ring.slots (slot_of s.ring t) false };
    consumer = cleared t item;
  }
  pop_next s (cleared t item) = record s {
    ring = record s.ring { tail = wrapping_add t 1 };
    consumer = waiting;
    returned = s.returned ++ (item ∷ []);
  }

  pop_chosen :
      (s : System T) {t : System T} {c : Consumer T}
      → s.consumer ≡ c
      → t ≡ pop_next s c
      → t ≡ pop_next s s.consumer
  pop_chosen s at same = same ∙ ap (pop_next s) (sym at)

  Consume-next : (s t : System T) → Consume s t → t ≡ pop_next s s.consumer
  unfolding pop_next
  Consume-next s t (start at) = pop_chosen s at refl
  Consume-next s t (empty p at same) =
      let here : (p == s.ring.head) ≡ true = ground (arith, same) in pop_chosen s at (rw here refl)
  Consume-next s t (some_reserved p at apart) =
      let differs : (p == s.ring.head) ≡ false = ground (arith, apart) in
      pop_chosen s at (rw differs refl)
  Consume-next s t (not_ready p at inside dark) = pop_chosen s at (rw dark refl)
  Consume-next s t (see_ready p at inside shown) = pop_chosen s at (rw shown refl)
  Consume-next s t (take p item at value) = pop_chosen s at (rw (pop_next, value) refl)
  Consume-next s t (clear p item at) = pop_chosen s at refl
  Consume-next s t (advance p item at) = pop_chosen s at refl

  -- A step of the consumer is the only one.
  pub pop_goes : (P : System T → Type 0) {s t : System T} → Consume s t → PopEnds P t → PopEnds P s
  pop_goes P {s} {t} step ends =
      goes step
        (λ u other. subst (PopEnds P) (Consume-next s t step ∙ sym (Consume-next s u other)) ends)
