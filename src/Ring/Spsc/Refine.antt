-- ===== src/Ring/Spsc/Refine.antt =====
-- A ring that holds a queue behaves as the bounded queue.
use native.Mathlib.Nat.{mod-lt}
use bypass_io.Prelude.{
  ℕ, suc, ◌+◌, ◌-◌, ◌%◌, ◌^◌, ◌≤◌, ◌<◌, ◌≡◌, refl, sym, ap, subst, ◌∙◌, List, [], ◌∷◌, ◌++◌, Option,
  none, some, ok, err, bit_and, arith, length, get_elem?, set, replicate, length-set, length-append,
  get_elem?-set_self, get_elem?-set_ne, length-replicate, wrapping_add, is_power_of_two-eq-true,
  Bool-cases, is_power_of_two, inl, inr, get_elem?-snoc,
}
use bypass_io.Prelude.Masks.{bit_and-mask}
use bypass_io.Ring.Slots.{slot-ne, slots-lt, slots_pos, slot_of_wrapped, slot_of_next}
use bypass_io.Ring.Slots.{wrapping_sub_of_count}
use bypass_io.Ring.Spsc.{SpscRing, new, push, pop, len}

-- `r` has `2 ^ k` slots, and those from `tail` on hold the items of `q`, oldest first.
pub record Holds {ℓ} {T : Type ℓ} (k : ℕ) (r : SpscRing T) (q : List T) : Type ℓ where
  pub small : k < 64
  pub masked : r.mask ≡ 2 ^ k - 1
  pub sized : length r.buf ≡ 2 ^ k
  pub tail_word : r.tail < 2 ^ 64
  pub counted : (r.tail + length q) % 2 ^ 64 ≡ r.head
  pub fits : length q ≤ 2 ^ k
  pub slots :
      (i : ℕ) (x : T)
      → get_elem? q i ≡ some x
      → get_elem? r.buf ((r.tail + i) % 2 ^ k) ≡ some (some x)

module _ {ℓ} {T : Type ℓ} where
  -- Writing the slot after the last item extends what the slots hold by that item.
  slots-set :
      (k t : ℕ) (buf : List (Option T)) (q : List T) (x : T)
      → length buf ≡ 2 ^ k
      → length q < 2 ^ k
      → ((i : ℕ) (y : T) → get_elem? q i ≡ some y → get_elem? buf ((t + i) % 2 ^ k) ≡ some (some y))
      → (i : ℕ) (y : T) → get_elem? (q ++ (x ∷ [])) i ≡ some y
      → get_elem? (set buf ((t + length q) % 2 ^ k) (some x)) ((t + i) % 2 ^ k) ≡ some (some y)
  slots-set k t buf q x sized lt slots i y e = elim (get_elem?-snoc q x i e) [
    | inl old ↦
        get_elem?-set_ne buf _ _ (some x)
          (λ same. slot-ne (2 ^ k) t i (length q) old.0 (omega arith) (sym same))
        ∙ slots i y old.1
    | inr new ↦
        rw (new.0, ← new.1)
          (get_elem?-set_self buf ((t + length q) % 2 ^ k) (some x)
            (omega (arith, mod-lt (t + length q) (slots_pos k))))
  ]

  -- The ring that `new` makes has the capacity asked for and holds nothing.
  pub new-Holds : (n : ℕ) {r : SpscRing T} → new n ≡ some r → (k : ℕ) × (n ≡ 2 ^ k) × Holds k r []
  unfolding new
  new-Holds n {r} e = elim (Bool-cases (is_power_of_two n)) [
    | inl p ↦
        let (k, lt, n-eq) = is_power_of_two-eq-true n p in
        (k, n-eq, fresh k lt n-eq (ground (arith, slots_pos k)))
    | inr p ↦ absurd (ground arith)
  ]
    where
      fresh :
          (k : ℕ)
          → k < 64
          → n ≡ 2 ^ k
          → ◌≡◌ {A = SpscRing T}
              (record { head = 0; tail = 0; buf = replicate n none; mask = n - 1 })
              r
          → Holds k r []
      fresh k lt n-eq r-eq =
          subst (λ s. Holds k s []) r-eq
            (record {
              small = lt;
              masked = omega arith;
              sized = length-replicate n none ∙ n-eq;
              tail_word = omega arith;
              counted = refl;
              fits = omega arith;
              slots = λ i x f. cc;
            })

  module _ {k : ℕ} {r : SpscRing T} {q : List T} (h : Holds k r q) where
    open h use {small, masked, sized, tail_word, counted, fits, slots}

    pub len-Holds : len r ≡ length q
    unfolding len
    len-Holds =
        wrapping_sub_of_count r.head r.tail (length q) tail_word (omega (arith, slots-lt k small))
          counted

    head-slot : bit_and r.head r.mask ≡ (r.tail + length q) % 2 ^ k
    head-slot =
        ap (bit_and r.head) masked
        ∙ bit_and-mask r.head k
        ∙ ap (λ (n : ℕ). n % 2 ^ k) (sym counted)
        ∙ slot_of_wrapped k (r.tail + length q) small

    tail-slot : bit_and r.tail r.mask ≡ (r.tail + 0) % 2 ^ k
    tail-slot =
        ap (bit_and r.tail) masked ∙ bit_and-mask r.tail k ∙ ap (λ (n : ℕ). n % 2 ^ k) (omega arith)

    -- A ring that is not full takes the item at its end.
    pub push-Holds :
        (x : T)
        → length q < 2 ^ k
        → (r' : SpscRing T) × (push r x ≡ some (ok tt, r')) × Holds k r' (q ++ (x ∷ []))
    unfolding push len
    push-Holds x lt = (
      record r { buf = set r.buf (bit_and r.head r.mask) (some x); head = wrapping_add r.head 1 },
      ground (arith, len-Holds, sized, head-slot, mod-lt (r.tail + length q) (slots_pos k)),
      record {
        small = small;
        masked = masked;
        sized = length-set r.buf _ (some x) ∙ sized;
        tail_word = tail_word;
        counted = omega (arith, length-append q (x ∷ []));
        fits = omega (arith, length-append q (x ∷ []));
        slots = λ i y e. rw head-slot (slots-set k r.tail r.buf q x sized lt slots i y e);
      },
    )

    -- A full ring gives the item back and is unchanged.
    pub push_full : (x : T) → length q ≡ 2 ^ k → push r x ≡ some (err x, r)
    unfolding push len
    push_full x e = ground (arith, len-Holds, sized)

  -- An empty ring pops nothing.
  pub pop_empty : {k : ℕ} {r : SpscRing T} → Holds k r [] → pop r ≡ some (none, r)
  unfolding pop
  pop_empty h = ground arith

  -- A ring with items pops the oldest.
  pub pop-Holds :
      {k : ℕ} {r : SpscRing T} {x : T} {q : List T}
      → Holds k r (x ∷ q)
      → (r' : SpscRing T) × (pop r ≡ some (some x, r')) × Holds k r' q
  unfolding pop
  pop-Holds {k} {r} {x} {q} h = (
    record r { tail = wrapping_add r.tail 1 },
    ground (arith, tail-slot h, h.slots 0 x refl, slots-lt k h.small),
    record {
      small = h.small;
      masked = h.masked;
      sized = h.sized;
      tail_word = omega arith;
      counted = omega (arith, h.counted);
      fits = omega (arith, h.fits);
      slots = λ i y e. rw (slot_of_next k r.tail i h.small) (h.slots (suc i) y e);
    },
  )
