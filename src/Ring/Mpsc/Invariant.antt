-- ===== src/Ring/Mpsc/Invariant.antt =====
-- What every reachable state of the ring of many producers satisfies.
mod Reserving
mod Writing
mod Publishing
pub mod Pushing
pub mod Popping
use native.Mathlib.Nat.{mod-lt}
use bypass_io.Prelude.{
  bit_and, ℕ, zero, suc, ◌+◌, ◌-◌, ◌%◌, ◌^◌, ◌≤◌, ◌<◌, ◌≡◌, ◌≢◌, sym, ap, ◌∙◌, Bool, true, false,
  inl, inr, List, [], ◌∷◌, ◌++◌, Option, none, some, arith, length, get_elem?, Bool-cases, ◌==◌,
}
use bypass_io.Prelude.Masks.{bit_and-mask}
use bypass_io.Ring.Slots.{slots_pos}
use bypass_io.Ring.Mpsc.{
  slot_of, Slot, MpscRing, Producer, idle, loaded, checked, reserved, written, Consumer, waiting,
  at_tail, nonempty, readable, taken, cleared, System, set_producer, update, ready_at, value_at,
}

some_inj : {a b : ℕ} → some a ≡ some b → a ≡ b
some_inj e = cc

module _ {T : Type 0} where
  -- The ticket that a producer has reserved and not published.
  abbrev pub ticket : Producer T → Option ℕ
  ticket idle = none
  ticket (loaded item h) = none
  ticket (checked item h) = none
  ticket (reserved item t) = some t
  ticket (written item t) = some t

  -- The item of a reserved ticket, whose slot is not readable yet.
  abbrev pub Held : ℕ → MpscRing T → List T → T → ℕ → Type 0
  Held k r accepted item t =
      (r.tail ≤ t)
      × (t < r.head)
      × (ready_at r.slots (t % 2 ^ k) ≡ false)
      × (get_elem? accepted t ≡ some item)

  -- What a producer's local variables say of the ring.
  abbrev pub Fine : ℕ → MpscRing T → List T → Producer T → Type 0
  Fine k r accepted idle = Unit
  Fine k r accepted (loaded item h) = h ≤ r.head
  Fine k r accepted (checked item h) = (h ≤ r.head) × (h ≡ r.head → r.head < r.tail + 2 ^ k)
  Fine k r accepted (reserved item t) = Held k r accepted item t
  Fine k r accepted (written item t) =
      Held k r accepted item t × (value_at r.slots (t % 2 ^ k) ≡ some item)

  -- What the consumer's local variables say.
  abbrev pub Sees : ℕ → MpscRing T → (ℕ → Producer T) → List T → Consumer T → Type 0
  Sees k r ps accepted waiting = Unit
  Sees k r ps accepted (at_tail t) = t ≡ r.tail
  Sees k r ps accepted (nonempty t) = (t ≡ r.tail) × (r.tail < r.head)
  Sees k r ps accepted (readable t) =
      (t ≡ r.tail) × (r.tail < r.head) × (ready_at r.slots (t % 2 ^ k) ≡ true)
  Sees k r ps accepted (taken t item) =
      (t ≡ r.tail)
      × (r.tail < r.head)
      × (ready_at r.slots (t % 2 ^ k) ≡ true)
      × (get_elem? accepted t ≡ some item)
  Sees k r ps accepted (cleared t item) =
      (t ≡ r.tail)
      × (r.tail < r.head)
      × (ready_at r.slots (t % 2 ^ k) ≡ false)
      × (get_elem? accepted t ≡ some item)
      × ((i : ℕ) → ticket (ps i) ≢ some t)

  pub record Inv (k : ℕ) (s : System T) : Type 0 where
    pub small : k < 64
    pub masked : s.ring.mask ≡ 2 ^ k - 1
    pub sized : length s.ring.slots ≡ 2 ^ k
    pub bounded : s.ring.head < 2 ^ 64
    pub heads : s.ring.head ≡ length s.accepted
    pub tails : s.ring.tail ≡ length s.returned
    pub below : s.ring.tail ≤ s.ring.head
    pub within : s.ring.head ≤ s.ring.tail + 2 ^ k
    pub pending : List T
    pub split : s.accepted ≡ s.returned ++ pending
    -- A slot that is readable has the item of its ticket.
    pub published :
        (j : ℕ)
        → s.ring.tail ≤ j
        → j < s.ring.tail + 2 ^ k
        → ready_at s.ring.slots (j % 2 ^ k) ≡ true
        → (a : T) × (value_at s.ring.slots (j % 2 ^ k) ≡ some a) × (get_elem? s.accepted j ≡ some a)
    pub fine : (i : ℕ) → Fine k s.ring s.accepted (s.producers i)
    pub distinct :
        (i j t : ℕ) → ticket (s.producers i) ≡ some t → ticket (s.producers j) ≡ some t → i ≡ j
    pub sees : Sees k s.ring s.producers s.accepted s.consumer

  pub update-All {κ} :
      (P : Producer T → Type κ) (f : ℕ → Producer T) (i : ℕ) (p : Producer T)
      → P p
      → ((j : ℕ) → i ≢ j → P (f j))
      → (j : ℕ) → P (update f i p j)
  update-All P f i p here others j = elim (Bool-cases (i == j)) [
    | inl e ↦ rw e here
    | inr e ↦ rw e (others j (λ same. ground (arith, same, e)))
  ]

  -- The ticket that a producer holds is one of those that wait, and its slot is not readable.
  pub Fine-ticket :
      (k : ℕ) (r : MpscRing T) (accepted : List T) (p : Producer T) (t : ℕ)
      → Fine k r accepted p
      → ticket p ≡ some t
      → (r.tail ≤ t) × (t < r.head) × (ready_at r.slots (t % 2 ^ k) ≡ false)
  Fine-ticket k r accepted idle t h e = cc
  Fine-ticket k r accepted (loaded item g) t h e = cc
  Fine-ticket k r accepted (checked item g) t h e = cc
  Fine-ticket k r accepted (reserved item g) t h e = (
    omega (arith, h.0, some_inj e),
    omega (arith, h.1, some_inj e),
    ap (λ n. ready_at r.slots (n % 2 ^ k)) (sym (some_inj e)) ∙ h.2,
  )
  Fine-ticket k r accepted (written item g) t h e = (
    omega (arith, h.0.0, some_inj e),
    omega (arith, h.0.1, some_inj e),
    ap (λ n. ready_at r.slots (n % 2 ^ k)) (sym (some_inj e)) ∙ h.0.2,
  )

  pub Sees-update :
      (k : ℕ) (r : MpscRing T) (f : ℕ → Producer T) (i : ℕ) (p : Producer T) (accepted : List T)
      (c : Consumer T)
      → ticket p ≡ none
      → Sees k r f accepted c
      → Sees k r (update f i p) accepted c
  Sees-update k r f i p accepted waiting none_held h = h
  Sees-update k r f i p accepted (at_tail t) none_held h = h
  Sees-update k r f i p accepted (nonempty t) none_held h = h
  Sees-update k r f i p accepted (readable t) none_held h = h
  Sees-update k r f i p accepted (taken t item) none_held h = h
  Sees-update k r f i p accepted (cleared t item) none_held h =
      (h.0, h.1, h.2, h.3, update-All (λ q. ticket q ≢ some t) f i p (λ e. cc) (λ j ne. h.4 j))

  -- A producer that moves on and holds no ticket then.
  pub set_producer-Inv :
      (k : ℕ) (s : System T) (i : ℕ) (p : Producer T)
      → Inv k s
      → Fine k s.ring s.accepted p
      → ticket p ≡ none
      → Inv k (set_producer s i p)
  set_producer-Inv k s i p inv here none_held = record {
    small = inv.small;
    masked = inv.masked;
    sized = inv.sized;
    bounded = inv.bounded;
    heads = inv.heads;
    tails = inv.tails;
    below = inv.below;
    within = inv.within;
    pending = inv.pending;
    split = inv.split;
    published = inv.published;
    fine = update-All (Fine k s.ring s.accepted) s.producers i p here (λ j ne. inv.fine j);
    distinct = λ a b t x y. ground (arith, inv.distinct a b t);
    sees = Sees-update k s.ring s.producers i p s.accepted s.consumer none_held inv.sees;
  }

  -- The mask takes a ticket to its slot.
  pub slot_of-mod : (k : ℕ) (s : System T) (t : ℕ) → Inv k s → slot_of s.ring t ≡ t % 2 ^ k
  slot_of-mod k s t inv = ap (bit_and t) inv.masked ∙ bit_and-mask t k

  pub slot_of-lt : (k : ℕ) (s : System T) (t : ℕ) → Inv k s → slot_of s.ring t < length s.ring.slots
  slot_of-lt k s t inv = omega (arith, slot_of-mod k s t inv, inv.sized, mod-lt t (slots_pos k))
