-- ===== src/Ring/Mpsc/Progress.antt =====
-- What a call of bypass-io/src/ring/mpsc.rs reaches when the others stand still, wherever they stand.
use native.Mathlib.Decide.{ℕ_discrete as dec_eq}
use bypass_io.Prelude.{
  ℕ, suc, ◌%◌, ◌^◌, ◌<◌, ◌≡◌, ◌≢◌, refl, sym, ap, ◌∙◌, true, false, [], ◌∷◌, ◌++◌, some, arith,
  length, ◌⊎◌, get_elem?, get_elem?-lt, inl, inr, Bool-cases, ◌==◌, ==_refl, wrapping_add,
  wrapping_sub,
}
use bypass_io.Ring.Slots.{slots_pos}
use bypass_io.Ring.Mpsc.{
  MpscRing, new, idle, loaded, checked, reserved, written, waiting, at_tail, System, set_producer,
  update, ready_at, value_at, slot_of, store_ready, store_value, len, Produce, begin, full, room,
  win, write, publish, Consume, start, empty, not_ready, some_reserved, see_ready, take, clear,
  advance, Reach,
}
use bypass_io.Ring.Mpsc.Runs.{PushEnds, PopEnds, over, push_next, push_goes, pop_goes}
use bypass_io.Ring.Mpsc.Slots.{length-store_value, store_ready-at, store_value-at}
use bypass_io.Ring.Mpsc.Invariant.{Inv, slot_of-lt, slot_of-mod}
use bypass_io.Ring.Mpsc.Safety.{init-Inv, Reach-Inv}

update_same {ℓ} : {A : Type ℓ} (f : ℕ → A) (i : ℕ) (a : A) → update f i a i ≡ a
update_same f i a = rw (==_refl i) refl

module _ {T : Type 0} where
  -- The states of a call of `push` that nobody disturbs.
  abbrev at_loaded : System T → ℕ → T → System T
  at_loaded s i item = set_producer s i (loaded item s.ring.head)

  abbrev at_checked : System T → ℕ → T → System T
  at_checked s i item = set_producer (at_loaded s i item) i (checked item s.ring.head)

  abbrev at_reserved : System T → ℕ → T → System T
  at_reserved s i item = record s {
    ring = record s.ring { head = wrapping_add s.ring.head 1 };
    producers = update (at_checked s i item).producers i (reserved item s.ring.head);
    accepted = s.accepted ++ (item ∷ []);
  }

  abbrev at_written : System T → ℕ → T → System T
  at_written s i item = record (at_reserved s i item) {
    ring = record (at_reserved s i item).ring {
      slots = store_value s.ring.slots (slot_of s.ring s.ring.head) item;
    };
    producers = update (at_reserved s i item).producers i (written item s.ring.head);
  }

  abbrev at_published : System T → ℕ → T → System T
  at_published s i item = record (at_written s i item) {
    ring = record (at_written s i item).ring {
      slots = store_ready (at_written s i item).ring.slots (slot_of s.ring s.ring.head) true;
    };
    producers = update (at_written s i item).producers i idle;
  }

  -- What a call of `push` by producer `i` on a ring of `n` slots has done when it ends in `t`, if it
  -- started in `s`.
  abbrev pub Pushed : ℕ → System T → ℕ → T → System T → Type 0
  Pushed n s i item t =
      ((len s.ring < n)
        × (t.accepted ≡ s.accepted ++ (item ∷ []))
        × (ready_at t.ring.slots (s.ring.head % n) ≡ true)
        × (value_at t.ring.slots (s.ring.head % n) ≡ some item))
      ⊎ ((len s.ring ≡ n) × (t.ring ≡ s.ring) × (t.accepted ≡ s.accepted))

  push_room :
      (k : ℕ) (P : System T → Type 0) (s : System T) (i : ℕ) (item : T)
      → Inv k s
      → (wrapping_sub s.ring.head s.ring.tail == length s.ring.slots) ≡ false
      → P (at_published s i item)
      → PushEnds P i (at_loaded s i item)
  unfolding push_next
  push_room k P s i item inv space done =
      let loaded_at = update_same s.producers i (loaded item s.ring.head) in
      let checked_at = update_same (at_loaded s i item).producers i (checked item s.ring.head) in
      let reserved_at = update_same (at_checked s i item).producers i (reserved item s.ring.head) in
      let written_at = update_same (at_reserved s i item).producers i (written item s.ring.head) in
      let won : (s.ring.head == s.ring.head) ≡ true = ==_refl s.ring.head in
      push_goes P i (at_loaded s i item) loaded_at (λ e. cc) (rw space refl)
        (room item s.ring.head loaded_at space)
        (push_goes P i (at_checked s i item) checked_at (λ e. cc) (rw won refl)
          (win item s.ring.head checked_at refl)
          (push_goes P i (at_reserved s i item) reserved_at (λ e. cc) refl
            (write item s.ring.head reserved_at (slot_of-lt k s s.ring.head inv))
            (push_goes P i (at_written s i item) written_at (λ e. cc) refl
              (publish item s.ring.head written_at)
              (over (update_same (at_written s i item).producers i idle) done))))

  push_full :
      (P : System T → Type 0) (s : System T) (i : ℕ) (item : T)
      → (wrapping_sub s.ring.head s.ring.tail == length s.ring.slots) ≡ true
      → P (set_producer (at_loaded s i item) i idle)
      → PushEnds P i (at_loaded s i item)
  unfolding push_next
  push_full P s i item no_space done =
      let loaded_at = update_same s.producers i (loaded item s.ring.head) in
      push_goes P i (at_loaded s i item) loaded_at (λ e. cc) (rw no_space refl)
        (full item s.ring.head loaded_at no_space)
        (over (update_same (at_loaded s i item).producers i idle) done)

  -- Wherever the other producers and the consumer stand, until the counters wrap: an idle producer
  -- can begin a call of `push`, and when the others stand still the call is never stuck and, but for
  -- spurious failures of the compare-exchange, each of its runs ends after finitely many steps. When
  -- the ring had room the item is then the last accepted one and its slot readable; when it had none,
  -- the ring is as before.
  pub push_alone :
      (n : ℕ) (r : MpscRing T) (s : System T) (i : ℕ) (item : T)
      → new n ≡ some r
      → Reach r s
      → length s.accepted < 2 ^ 64
      → s.producers i ≡ idle
      → Produce i s (set_producer s i (loaded item s.ring.head))
        × PushEnds (Pushed n s i item) i (set_producer s i (loaded item s.ring.head))
  unfolding len
  push_alone n r s i item made reached few at =
      let (k, n-eq, blank) = init-Inv n made in
      let inv = Reach-Inv k r blank reached few in
      let place : slot_of s.ring s.ring.head ≡ s.ring.head % n =
        slot_of-mod k s s.ring.head inv ∙ ap (λ p. s.ring.head % p) (sym n-eq) in
      let valued =
        store_value-at s.ring.slots (slot_of s.ring s.ring.head) (s.ring.head % n) item
          (slot_of-lt k s s.ring.head inv) in
      let stored =
        store_ready-at (at_written s i item).ring.slots (slot_of s.ring s.ring.head)
          (s.ring.head % n) true
          (omega (
            arith,
            slot_of-lt k s s.ring.head inv,
            length-store_value s.ring.slots (slot_of s.ring s.ring.head) item,
          )) in
      (
        begin item at,
        elim (Bool-cases (wrapping_sub s.ring.head s.ring.tail == length s.ring.slots)) [
          | inl no_space ↦
              push_full (Pushed n s i item) s i item no_space
                (inr (ground (arith, inv.sized, n-eq, no_space), refl, refl))
          | inr space ↦ push_room k (Pushed n s i item) s i item inv space (
              inl (
                ground (arith, space, inv.sized, n-eq, inv.within, inv.below, inv.bounded),
                refl,
                ground (arith, stored.0, place),
                ground (arith, stored.1, valued.1, place),
              ))
        ],
      )

  -- The state after a call of `pop` that returns `item`.
  abbrev at_popped : System T → T → System T
  at_popped s item = record s {
    ring = record s.ring {
      slots = store_ready s.ring.slots (slot_of s.ring s.ring.tail) false;
      tail = wrapping_add s.ring.tail 1;
    };
    consumer = waiting;
    returned = s.returned ++ (item ∷ []);
  }

  -- What a call of `pop` on a ring of `n` slots has done when it ends in `t`, if it started in `s`.
  abbrev pub Popped : ℕ → System T → System T → Type 0
  Popped n s t =
      ((item : T) × (ready_at s.ring.slots (s.ring.tail % n) ≡ true)
        × (get_elem? s.accepted (length s.returned) ≡ some item)
        × (t.returned ≡ s.returned ++ (item ∷ []))
        × (t.ring.tail ≡ suc s.ring.tail))
      ⊎ ((ready_at s.ring.slots (s.ring.tail % n) ≡ false)
          × (t.ring ≡ s.ring)
          × (t.returned ≡ s.returned))

  -- The calls of `pop` once the tail is read.
  abbrev at_started : System T → System T
  at_started s = record s { consumer = at_tail s.ring.tail }

  pop_some :
      (k : ℕ) (P : System T → Type 0) (s : System T) (item : T)
      → Inv k s
      → s.ring.tail ≢ s.ring.head
      → ready_at s.ring.slots (slot_of s.ring s.ring.tail) ≡ true
      → value_at s.ring.slots (slot_of s.ring s.ring.tail) ≡ some item
      → P (at_popped s item)
      → PopEnds P (at_started s)
  pop_some k P s item inv apart shown value done =
      let tail = s.ring.tail in
      pop_goes P (some_reserved tail refl apart) (
        pop_goes P (see_ready tail refl (slot_of-lt k s tail inv) shown) (
          pop_goes P (take tail item refl value) (
            pop_goes P (clear tail item refl)
              (pop_goes P (advance tail item refl) (over refl done)))))

  pop_nothing :
      (k : ℕ) (P : System T → Type 0) (s : System T)
      → Inv k s
      → ready_at s.ring.slots (slot_of s.ring s.ring.tail) ≡ false
      → P (record s { consumer = waiting })
      → PopEnds P (at_started s)
  pop_nothing k P s inv dark done = elim (dec_eq s.ring.tail s.ring.head) [
    | yes same ↦ pop_goes P (empty s.ring.tail refl same) (over refl done)
    | no apart ↦ pop_goes P (some_reserved s.ring.tail refl apart) (
        pop_goes P (not_ready s.ring.tail refl (slot_of-lt k s s.ring.tail inv) dark)
          (over refl done))
  ]

  -- Wherever the producers stand, until the counters wrap: a call of `pop` can begin, and when the
  -- producers stand still it is never stuck and each of its runs ends after finitely many steps. When
  -- the oldest slot was readable the call has returned the oldest accepted item that was not
  -- returned; when it was not, the ring is as before and nothing is returned.
  pub pop_alone :
      (n : ℕ) (r : MpscRing T) (s : System T)
      → new n ≡ some r
      → Reach r s
      → length s.accepted < 2 ^ 64
      → s.consumer ≡ waiting
      → Consume s (record s { consumer = at_tail s.ring.tail })
        × PopEnds (Popped n s) (record s { consumer = at_tail s.ring.tail })
  pop_alone n r s made reached few at =
      let (k, n-eq, blank) = init-Inv n made in
      let inv = Reach-Inv k r blank reached few in
      let place : slot_of s.ring s.ring.tail ≡ s.ring.tail % n =
        slot_of-mod k s s.ring.tail inv ∙ ap (λ p. s.ring.tail % p) (sym n-eq) in
      (
        start at,
        elim (Bool-cases (ready_at s.ring.slots (s.ring.tail % n))) [
          | inl shown ↦
              let (item, value, here) =
                inv.published s.ring.tail (omega arith) (omega (arith, slots_pos k))
                  (ap (λ p. ready_at s.ring.slots (s.ring.tail % p)) (sym n-eq) ∙ shown) in
              let below = get_elem?-lt s.accepted s.ring.tail here in
              pop_some k (Popped n s) s item inv
                (λ same. absurd (omega (arith, below, same, inv.heads)))
                (ap (ready_at s.ring.slots) place ∙ shown)
                (ap (value_at s.ring.slots) (place ∙ ap (λ p. s.ring.tail % p) n-eq) ∙ value)
                (inl (
                  item,
                  shown,
                  ap (get_elem? s.accepted) (sym inv.tails) ∙ here,
                  refl,
                  omega (arith, below, inv.heads, inv.bounded),
                ))
          | inr dark ↦
              pop_nothing k (Popped n s) s inv (ap (ready_at s.ring.slots) place ∙ dark)
                (inr (dark, refl, refl))
        ],
      )
