-- ===== src/Ring/Mpsc/Safety.antt =====
-- What the interleaved calls of bypass-io/src/ring/mpsc.rs guarantee.
use bypass_io.Prelude.{
  ℕ, zero, suc, ◌-◌, ◌%◌, ◌^◌, ◌≤◌, ◌<◌, ◌≡◌, ◌≢◌, refl, sym, ap, subst, ◌∙◌, true, false, inl, inr,
  List, [], ◌∷◌, ◌++◌, none, some, arith, length, length-append, length-replicate, get_elem?,
  replicate, Bool-cases, is_power_of_two, is_power_of_two-eq-true,
}
use bypass_io.Ring.Slots.{slots_pos}
use bypass_io.Ring.Mpsc.{
  MpscRing, new, readable, System, ready_at, value_at, slot_of, Produce, begin, full, room, win,
  lose, write, publish, Consume, start, empty, some_reserved, not_ready, see_ready, take, clear,
  advance, init, Reach, fresh, produce, consume,
}
use bypass_io.Ring.Mpsc.Slots.{window-ne}
use bypass_io.Ring.Mpsc.Invariant.{ticket, Fine-ticket, Sees, Inv, slot_of-lt, slot_of-mod}
use bypass_io.Ring.Mpsc.Invariant.Pushing.{Produce-Inv}
use bypass_io.Ring.Mpsc.Invariant.Popping.{Consume-Inv}

ready_at-replicate :
    (T : Type 0) (n j : ℕ)
    → ready_at {T = T} (replicate n (record { ready = false; value = none })) j ≡ false
ready_at-replicate T zero j = refl
ready_at-replicate T (suc n) zero = refl
ready_at-replicate T (suc n) (suc j) = ready_at-replicate T n j

module _ {T : Type 0} where
  pub init-Inv : (n : ℕ) {r : MpscRing T} → new n ≡ some r → (k : ℕ) × (n ≡ 2 ^ k) × Inv k (init r)
  unfolding new
  init-Inv n {r} e = elim (Bool-cases (is_power_of_two n)) [
    | inl p ↦
        let (k, lt, n-eq) = is_power_of_two-eq-true n p in
        (k, n-eq, subst (λ q. Inv k (init q)) (made k n-eq p) (blank k lt n-eq))
    | inr p ↦ absurd (ground arith)
  ]
    where
      ring : MpscRing T
      ring = record {
        head = 0;
        tail = 0;
        slots = replicate n (record { ready = false; value = none });
        mask = n - 1;
      }

      made : (k : ℕ) → n ≡ 2 ^ k → is_power_of_two n ≡ true → ring ≡ r
      made k n-eq p = ground (arith, slots_pos k, n-eq, p, e)

      blank : (k : ℕ) → k < 64 → n ≡ 2 ^ k → Inv k (init ring)
      blank k lt n-eq = record {
        small = lt;
        masked = omega arith;
        sized = length-replicate n _ ∙ n-eq;
        bounded = omega arith;
        heads = refl;
        tails = refl;
        below = omega arith;
        within = omega arith;
        pending = [];
        split = refl;
        published = λ j low high shown. absurd (dark (j % 2 ^ k) shown);
        fine = λ i. tt;
        distinct = λ i j t x y. cc;
        sees = tt;
      }
        where
          dark : (j : ℕ) → ready_at ring.slots j ≡ true → ⊥
          dark j shown = cc (ready_at-replicate T n j, shown)

  -- A step never forgets an item.
  Produce-length : {i : ℕ} {s t : System T} → Produce i s t → length s.accepted ≤ length t.accepted
  Produce-length (begin item e) = omega arith
  Produce-length (full item h e e') = omega arith
  Produce-length (room item h e e') = omega arith
  Produce-length {s} (win item h e same) = omega (arith, length-append s.accepted (item ∷ []))
  Produce-length (lose item h e) = omega arith
  Produce-length (write item g e inside) = omega arith
  Produce-length (publish item g e) = omega arith

  Consume-accepted : {s t : System T} → Consume s t → t.accepted ≡ s.accepted
  Consume-accepted (start e) = refl
  Consume-accepted (empty t e same) = refl
  Consume-accepted (some_reserved t e ne) = refl
  Consume-accepted (not_ready t e lt dark) = refl
  Consume-accepted (see_ready t e lt shown) = refl
  Consume-accepted (take t item e value) = refl
  Consume-accepted (clear t item e) = refl
  Consume-accepted (advance t item e) = refl

  -- The invariant holds in each state that the calls lead to, until the counters wrap.
  pub Reach-Inv :
      (k : ℕ) (r : MpscRing T) {s : System T}
      → Inv k (init r)
      → Reach r s
      → length s.accepted < 2 ^ 64
      → Inv k s
  Reach-Inv k r blank fresh few = blank
  Reach-Inv k r blank (produce {s} i before step) few =
      Produce-Inv k i step (Reach-Inv k r blank before (omega (arith, Produce-length step, few)))
        few
  Reach-Inv k r blank (consume {s} before step) few =
      Consume-Inv k step
        (Reach-Inv k r blank before (subst (λ l. length l < 2 ^ 64) (Consume-accepted step) few))

  -- However the calls of the producers and of the consumer interleave, until the counters wrap:
  -- what `pop` has returned are the first of the accepted items, in the order of their reservations,
  -- each once, and no more items wait than the ring has slots.
  pub accepted-returned :
      (n : ℕ) (r : MpscRing T) (s : System T)
      → new n ≡ some r
      → Reach r s
      → length s.accepted < 2 ^ 64
      → (pending : List T) × (s.accepted ≡ s.returned ++ pending) × (length pending ≤ n)
  accepted-returned n r s made reached few =
      let (k, n-eq, blank) = init-Inv n made in
      let inv = Reach-Inv k r blank reached few in
      (
        inv.pending,
        inv.split,
        omega (
          arith,
          inv.heads,
          inv.tails,
          inv.within,
          ap length inv.split,
          length-append s.returned inv.pending,
          n-eq,
        ),
      )

  -- Until the counters wrap: two producers that have both reserved a ticket and not published it hold
  -- different slots, so that no slot is written by one while the other writes it.
  pub slots_exclusive :
      (n : ℕ) (r : MpscRing T) (s : System T) (i j t u : ℕ)
      → new n ≡ some r
      → Reach r s
      → length s.accepted < 2 ^ 64
      → i ≢ j
      → ticket (s.producers i) ≡ some t
      → ticket (s.producers j) ≡ some u
      → (slot_of s.ring t < n) × (slot_of s.ring u < n) × (slot_of s.ring t ≢ slot_of s.ring u)
  slots_exclusive n r s i j t u made reached few ne e f =
      let (k, n-eq, blank) = init-Inv n made in
      let inv = Reach-Inv k r blank reached few in
      let mine = Fine-ticket k s.ring s.accepted (s.producers i) t (inv.fine i) e in
      let other = Fine-ticket k s.ring s.accepted (s.producers j) u (inv.fine j) f in
      let apart : t % 2 ^ k ≢ u % 2 ^ k =
        window-ne (2 ^ k) s.ring.tail t u mine.0 (omega (arith, mine.1, inv.within)) other.0
          (omega (arith, other.1, inv.within))
          (λ same. ne (inv.distinct i j t e (f ∙ ap some (sym same)))) in
      (
        omega (arith, slot_of-lt k s t inv, inv.sized, n-eq),
        omega (arith, slot_of-lt k s u inv, inv.sized, n-eq),
        λ same. apart (sym (slot_of-mod k s t inv) ∙ same ∙ slot_of-mod k s u inv),
      )

  -- Until the counters wrap: when `pop` is about to read a slot, the slot has the oldest accepted item
  -- that was not returned, and no producer holds it.
  pub read_written :
      (n : ℕ) (r : MpscRing T) (s : System T) (t : ℕ)
      → new n ≡ some r
      → Reach r s
      → length s.accepted < 2 ^ 64
      → s.consumer ≡ readable t
      → (item : T) × (value_at s.ring.slots (slot_of s.ring t) ≡ some item)
        × (get_elem? s.accepted (length s.returned) ≡ some item)
        × ((i u : ℕ) → ticket (s.producers i) ≡ some u → slot_of s.ring u ≢ slot_of s.ring t)
  read_written n r s t made reached few e =
      let (k, n-eq, blank) = init-Inv n made in
      let inv = Reach-Inv k r blank reached few in
      let (oldest, some_wait, shown) = subst (Sees k s.ring s.producers s.accepted) e inv.sees in
      let (item, value, here) =
        inv.published t (omega (arith, oldest)) (omega (arith, oldest, slots_pos k)) shown in
      (
        item,
        ap (value_at s.ring.slots) (slot_of-mod k s t inv) ∙ value,
        ap (get_elem? s.accepted) (sym inv.tails ∙ sym oldest) ∙ here,
        λ i u held same.
            let dark = (Fine-ticket k s.ring s.accepted (s.producers i) u (inv.fine i) held).2 in
            absurd (cc (dark, shown, sym (slot_of-mod k s u inv) ∙ same ∙ slot_of-mod k s t inv)),
      )
