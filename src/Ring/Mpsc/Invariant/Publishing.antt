-- ===== src/Ring/Mpsc/Invariant/Publishing.antt =====
-- The store of `ready` by `push` of bypass-io/src/ring/mpsc.rs keeps the invariant.
use native.Mathlib.Decide.{ℕ_discrete as dec_eq}
use bypass_io.Prelude.{
  ℕ, ◌+◌, ◌%◌, ◌^◌, ◌≤◌, ◌<◌, ◌≡◌, ◌≢◌, sym, ap, subst, ◌∙◌, true, List, some, arith, length,
  get_elem?,
}
use bypass_io.Ring.Mpsc.Slots.{length-store_ready, store_ready-at, window-ne}
use bypass_io.Ring.Mpsc.{
  MpscRing, Producer, idle, loaded, checked, reserved, written, Consumer, waiting, at_tail,
  nonempty, readable, taken, cleared, System, update, ready_at, value_at, store_ready, slot_of,
}
use bypass_io.Ring.Mpsc.Invariant.{
  ticket, Held, Fine, Sees, Inv, update-All, slot_of-mod, slot_of-lt,
}

module _ {T : Type 0} where
  -- Another producer, after a slot that it does not hold became readable.
  Fine-publish :
      (k : ℕ) (r : MpscRing T) (accepted : List T) (x t : ℕ) (p : Producer T)
      → x < length r.slots
      → x ≡ t % 2 ^ k
      → r.head ≤ r.tail + 2 ^ k
      → (r.tail ≤ t) × (t < r.head)
      → ticket p ≢ some t
      → Fine k r accepted p
      → Fine k (record r { slots = store_ready r.slots x true }) accepted p
  Fine-publish k r accepted x t idle lt same lap mine other h = tt
  Fine-publish k r accepted x t (loaded y g) lt same lap mine other h = h
  Fine-publish k r accepted x t (checked y g) lt same lap mine other h = h
  Fine-publish k r accepted x t (reserved y g) lt same lap mine other h =
      let at = store_ready-at r.slots x (g % 2 ^ k) true lt in
      let apart : t % 2 ^ k ≢ g % 2 ^ k =
        window-ne (2 ^ k) r.tail t g mine.0 (omega (arith, mine.1)) h.0 (omega (arith, h.1))
          (λ e. other (ap some (sym e))) in
      (h.0, h.1, ground (arith, at.0, same, apart, h.2), h.3)
  Fine-publish k r accepted x t (written y g) lt same lap mine other h =
      let at = store_ready-at r.slots x (g % 2 ^ k) true lt in
      let apart : t % 2 ^ k ≢ g % 2 ^ k =
        window-ne (2 ^ k) r.tail t g mine.0 (omega (arith, mine.1)) h.0.0 (omega (arith, h.0.1))
          (λ e. other (ap some (sym e))) in
      ((h.0.0, h.0.1, ground (arith, at.0, same, apart, h.0.2), h.0.3), at.1 ∙ h.1)

  Sees-publish :
      (k : ℕ) (r : MpscRing T) (f : ℕ → Producer T) (i x t : ℕ) (accepted : List T) (c : Consumer T)
      → x < length r.slots
      → x ≡ t % 2 ^ k
      → r.head ≤ r.tail + 2 ^ k
      → (r.tail ≤ t) × (t < r.head)
      → ticket (f i) ≡ some t
      → Sees k r f accepted c
      → Sees k (record r { slots = store_ready r.slots x true }) (update f i idle) accepted c
  Sees-publish k r f i x t accepted waiting lt same lap mine held h = tt
  Sees-publish k r f i x t accepted (at_tail g) lt same lap mine held h = h
  Sees-publish k r f i x t accepted (nonempty g) lt same lap mine held h = h
  Sees-publish k r f i x t accepted (readable g) lt same lap mine held h =
      (h.0, h.1, ground (arith, (store_ready-at r.slots x (g % 2 ^ k) true lt).0, h.2))
  Sees-publish k r f i x t accepted (taken g y) lt same lap mine held h =
      (h.0, h.1, ground (arith, (store_ready-at r.slots x (g % 2 ^ k) true lt).0, h.2), h.3)
  Sees-publish k r f i x t accepted (cleared g y) lt same lap mine held h =
      let at = store_ready-at r.slots x (g % 2 ^ k) true lt in
      let apart : t % 2 ^ k ≢ g % 2 ^ k =
        window-ne (2 ^ k) r.tail t g mine.0 (omega (arith, mine.1)) (omega (arith, h.0))
          (omega (arith, h.0, h.1)) (λ e. h.4 i (held ∙ ap some e)) in
      (
        h.0,
        h.1,
        ground (arith, at.0, same, apart, h.2),
        h.3,
        update-All (λ q. ticket q ≢ some g) f i idle (λ e. cc) (λ j ne. h.4 j),
      )

  pub publish-Inv :
      (k : ℕ) (s : System T) (i : ℕ) (item : T) (t : ℕ)
      → Inv k s
      → s.producers i ≡ written item t
      → Inv k (record s {
        ring = record s.ring { slots = store_ready s.ring.slots (slot_of s.ring t) true };
        producers = update s.producers i idle;
      })
  publish-Inv k s i item t inv at = record {
    small = inv.small;
    masked = inv.masked;
    sized = length-store_ready s.ring.slots (slot_of s.ring t) true ∙ inv.sized;
    bounded = inv.bounded;
    heads = inv.heads;
    tails = inv.tails;
    below = inv.below;
    within = inv.within;
    pending = inv.pending;
    split = inv.split;
    published = shows;
    fine =
        update-All
          (Fine k (record s.ring { slots = store_ready s.ring.slots (slot_of s.ring t) true })
            s.accepted)
          s.producers i idle tt
          (λ j ne.
            Fine-publish k s.ring s.accepted (slot_of s.ring t) t (s.producers j) inside place
              inv.within (held.0.0, held.0.1) (λ e. ne (inv.distinct i j t mine e)) (inv.fine j));
    distinct = λ a b g x y. ground (arith, inv.distinct a b g);
    sees =
        Sees-publish k s.ring s.producers i (slot_of s.ring t) t s.accepted s.consumer inside place
          inv.within (held.0.0, held.0.1) mine inv.sees;
  }
    where
      inside : slot_of s.ring t < length s.ring.slots
      inside = slot_of-lt k s t inv

      place : slot_of s.ring t ≡ t % 2 ^ k
      place = slot_of-mod k s t inv

      held : Held k s.ring s.accepted item t × (value_at s.ring.slots (t % 2 ^ k) ≡ some item)
      held = subst (Fine k s.ring s.accepted) at (inv.fine i)

      mine : ticket (s.producers i) ≡ some t
      mine = ap ticket at

      shows :
          (j : ℕ)
          → s.ring.tail ≤ j
          → j < s.ring.tail + 2 ^ k
          → ready_at (store_ready s.ring.slots (slot_of s.ring t) true) (j % 2 ^ k) ≡ true
          → (a : T) × (value_at (store_ready s.ring.slots (slot_of s.ring t) true) (j % 2 ^ k)
              ≡ some a)
            × (get_elem? s.accepted j ≡ some a)
      shows j low high shown =
          let stored = store_ready-at s.ring.slots (slot_of s.ring t) (j % 2 ^ k) true inside in
          elim (dec_eq t j) [
            | yes e ↦ (
              item,
              stored.1 ∙ ap (λ n. value_at s.ring.slots (n % 2 ^ k)) (sym e) ∙ held.1,
              ap (get_elem? s.accepted) (sym e) ∙ held.0.3,
            )
            | no ne ↦
                let apart : t % 2 ^ k ≢ j % 2 ^ k =
                  window-ne (2 ^ k) s.ring.tail t j held.0.0 (omega (arith, held.0.1, inv.within))
                    low high ne in
                let (a, value, here) =
                  inv.published j low high (ground (arith, stored.0, place, apart, shown)) in
                (a, stored.1 ∙ value, here)
          ]
